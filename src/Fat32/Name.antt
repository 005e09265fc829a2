-- ===== src/Fat32/Name.antt =====
-- src/fs_fat32.c: names and paths: formatname, generate_shortname, cal_checksum, skipelem. A string
-- is the list of its bytes in front of the 0 that ends it.
pub mod Legal
pub mod Path
pub mod Short
use k210_os.Prelude.{
  ℕ, zero, suc, ◌+◌, ◌-◌, ◌*◌, ◌/◌, ◌%◌, ◌^◌, ◌<◌, ◌≤◌, ◌≡◌, ◌≢◌, ◌↔◌, ◌⊎◌, inl, inr, refl, sym, ap,
  ◌∙◌, min, max, Bool, true, false, not, ◌&&◌, ◌||◌, Option, none, some, List, [], ◌∷◌, ◌++◌, map,
  arith, ltb, leb, ◌==◌, if◌then◌else◌, lt→ltb, ltb→lt, ltb→le, leb→le, eq→==, ==→eq, Bool-cases,
  length, get_elem?, get_or, set, replicate, take, drop, length-append, length-set,
  length-replicate, get_elem?-eq-get_or, get_or-set, get_or-append, set-set, set-get_or, Outcome,
  ok, panic, fault, hang, ◌>>=◌, ◌>>◌, assert, from_option, load, store, load-ok, store-ok, Yields,
  Yields->>=, Yields-map, holds_below, holds_below→test,
}

-- strchr, as a test; a string holds no 0
unfoldable pub has_char : List ℕ → ℕ → Bool
has_char [] c = false
has_char (x ∷ xs) c = x == c || has_char xs c

-- the `illegal` of formatname: " * / : < > ? \ |
abbrev pub illegal : List ℕ
illegal = 34 ∷ 42 ∷ 47 ∷ 58 ∷ 60 ∷ 62 ∷ 63 ∷ 92 ∷ 124 ∷ []

-- The first `while` of formatname: ' ' and '.' in the head.
unfoldable pub skip_head : List ℕ → List ℕ
skip_head [] = []
skip_head (c ∷ s) = let rest : List ℕ = skip_head s in if c == 32 || c == 46 then rest else c ∷ s

-- The `for` of formatname: whether it gets to the end.
unfoldable pub is_legal : List ℕ → Bool
is_legal [] = true
is_legal (c ∷ s) =
    let rest : Bool = is_legal s in if ltb c 0x20 || has_char illegal c then false else rest

-- The last `while`: the end is put behind the last byte that is not ' '. formatname comes here with
-- a string that does not begin with ' '.
unfoldable pub cut_tail : List ℕ → List ℕ
cut_tail [] = []
cut_tail (c ∷ s) = elim (cut_tail s) [
  | [] ↦ if c == 32 then [] else c ∷ []
  | x ∷ rest ↦ c ∷ x ∷ rest
]

-- none for NULL
unfoldable pub formatname : List ℕ → Option (List ℕ)
formatname name = let s : List ℕ = skip_head name in if is_legal s then some (cut_tail s) else none

-- CHAR_SHORT_NAME and CHAR_LONG_NAME
abbrev pub char_short_name : ℕ
char_short_name = 11

abbrev pub char_long_name : ℕ
char_long_name = 13

-- the `illegal` of generate_shortname: + , ; = [ ]
abbrev pub illegal_short : List ℕ
illegal_short = 43 ∷ 44 ∷ 59 ∷ 61 ∷ 91 ∷ 93 ∷ []

-- The `for` of generate_shortname: where the last '.' is, or 0.
unfoldable pub last_dot : ℕ → List ℕ → ℕ → ℕ
last_dot at [] found = found
last_dot at (c ∷ s) found = last_dot (at + 1) s (if c == 46 then at else found)

-- A byte as it goes into a short name.
unfoldable pub short_char : ℕ → ℕ
short_char c = if leb 97 c && leb c 122 then c - 32 else if has_char illegal_short c then 95 else c

-- the pointer `p` of generate_shortname as a position in the name: whether it is not NULL, and
-- whether it is NULL or below a position behind `at`
abbrev pub is_some : Option ℕ → Bool
is_some none = false
is_some (some _) = true

abbrev pub to_position : Option ℕ → ℕ
to_position none = 0
to_position (some q) = q

abbrev pub is_behind : Option ℕ → ℕ → Bool
is_behind none at = true
is_behind (some q) at = ltb q (at + 1)

-- A round of the first `while` of generate_shortname, at the byte `c` at a position, with `p` and
-- the bytes that were written; `again` is the next round. A memset of a negative length runs over
-- the memory.
unfoldable pub shorten_char :
    (ℕ → Option ℕ → List ℕ → Outcome (List ℕ)) → ℕ → ℕ → Option ℕ → List ℕ → Outcome (List ℕ)
shorten_char again c at p out =
    let i : ℕ = length out in
    if i == 8 && is_some p
    then (if ltb (to_position p + 1) (at + 1) then ok out else again (to_position p + 1) none out)
    else if c == 32
    then again (at + 1) p out
    else if c == 46
    then (if is_behind p at
        then (if ltb 8 i then fault else again (at + 1) none (out ++ replicate (8 - i) 32))
        else again (at + 1) p out)
    else again (at + 1) p (out ++ short_char c ∷ [])

unfoldable pub shorten : ℕ → List ℕ → ℕ → Option ℕ → List ℕ → Outcome (List ℕ)
shorten zero name at p out = hang
shorten (suc fuel) name at p out =
    if leb char_short_name (length out) then ok out else elim (get_elem? name at) [
      | none ↦ ok out
      | some c ↦ shorten_char (shorten fuel name) c at p out
    ]

-- `p` is the last '.', or the beginning. The loop goes up in the name, but for a jump to the last
-- '.'.
unfoldable pub generate_shortname : List ℕ → Outcome (List ℕ)
generate_shortname name = shorten (length name + 2) name 0 (some (last_dot 0 name 0)) [] >>= λ out.
    ok (out ++ replicate (char_short_name - length out) 32)

-- The loop of cal_checksum, one byte after the other.
unfoldable pub checksum_from : ℕ → List ℕ → ℕ
checksum_from sum [] = sum
checksum_from sum (c ∷ s) =
    checksum_from (((if sum % 2 == 1 then 0x80 else 0) + sum / 2 + c) % 2 ^ 8) s

unfoldable pub cal_checksum : List ℕ → ℕ
cal_checksum shortname = checksum_from 0 (take char_short_name shortname)

-- FAT32_MAX_FILENAME
abbrev pub max_filename : ℕ
max_filename = 255

-- The loops of skipelem: over slashes, and up to one.
unfoldable pub skip_slashes : List ℕ → List ℕ
skip_slashes [] = []
skip_slashes (c ∷ s) = let rest : List ℕ = skip_slashes s in if c == 47 then rest else c ∷ s

unfoldable pub up_to_slash : List ℕ → List ℕ × List ℕ
up_to_slash [] = ([], [])
up_to_slash (c ∷ s) =
    let rest : List ℕ × List ℕ = up_to_slash s in
    if c == 47 then ([], c ∷ s) else (c ∷ rest.0, rest.1)

-- The part of skipelem behind its first loop.
unfoldable pub split_elem : List ℕ → Option (List ℕ × List ℕ)
split_elem [] = none
split_elem (c ∷ s) =
    let parts : List ℕ × List ℕ = up_to_slash (c ∷ s) in
    some (take max_filename parts.0, skip_slashes parts.1)

-- The name and the path behind it, or none for NULL.
unfoldable pub skipelem : List ℕ → Option (List ℕ × List ℕ)
skipelem path = split_elem (skip_slashes path)
