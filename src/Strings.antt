-- ===== src/Strings.antt =====
-- src/string.c: the operations on bytes. Pointers are addresses in a memory of bytes.
pub mod Move
pub mod Compare
mod Tests
use k210_os.Prelude.{
  ℕ, zero, suc, ◌+◌, ◌-◌, ◌*◌, ◌/◌, ◌%◌, ◌^◌, ◌<◌, ◌≤◌, ◌≡◌, ◌≢◌, ◌↔◌, ◌⊎◌, inl, inr, refl, sym, ap,
  ◌∙◌, min, max, Bool, true, false, not, ◌&&◌, ◌||◌, Option, none, some, List, [], ◌∷◌, ◌++◌, map,
  arith, ltb, leb, ◌==◌, if◌then◌else◌, lt→ltb, ltb→lt, ltb→le, leb→le, eq→==, ==→eq, Bool-cases,
  length, get_elem?, get_or, set, replicate, take, drop, length-append, length-set,
  length-replicate, get_elem?-eq-get_or, get_or-set, get_or-append, set-set, set-get_or, Outcome,
  ok, panic, fault, hang, ◌>>=◌, ◌>>◌, assert, from_option, load, store, load-ok, store-ok, Yields,
  Yields->>=, Yields-map, holds_below, holds_below→test,
}

abbrev pub Bytes : Type 0
Bytes = ℕ → ℕ

abbrev pub put : Bytes → ℕ → ℕ → Bytes
put m at v = λ k. if k == at then v else m k

-- `int` subtraction of two bytes
abbrev pub difference : ℕ → ℕ → ℕ
difference a b = (a + 2 ^ 32 - b) % 2 ^ 32

-- `c - '\t' < 5` is on unsigned numbers
unfoldable pub isspace : ℕ → Bool
isspace c = c == 32 || ltb (difference c 9) 5

unfoldable pub isdigit : ℕ → Bool
isdigit c = ltb (difference c 48) 10

unfoldable pub memset : ℕ → Bytes → ℕ → ℕ → Bytes
memset zero m dest c = m
memset (suc n) m dest c = memset n (put m dest (c % 256)) (dest + 1) c

unfoldable pub memcmp : ℕ → Bytes → ℕ → ℕ → ℕ
memcmp zero m s1 s2 = 0
memcmp (suc n) m s1 s2 =
    let rest : ℕ = memcmp n m (s1 + 1) (s2 + 1) in
    if not (m s1 == m s2) then difference (m s1) (m s2) else rest

-- `*d++ = *s++`, n times
unfoldable pub copy_up : ℕ → Bytes → ℕ → ℕ → Bytes
copy_up zero m d s = m
copy_up (suc n) m d s = copy_up n (put m d (m s)) (d + 1) (s + 1)

-- `*--d = *--s`, n times
unfoldable pub copy_down : ℕ → Bytes → ℕ → ℕ → Bytes
copy_down zero m d s = m
copy_down (suc n) m d s = copy_down n (put m (d - 1) (m (s - 1))) (d - 1) (s - 1)

unfoldable pub memmove : Bytes → ℕ → ℕ → ℕ → Bytes
memmove m dst src n =
    if ltb src dst && ltb dst (src + n)
    then copy_down n m (dst + n) (src + n)
    else copy_up n m dst src

unfoldable pub memcpy : Bytes → ℕ → ℕ → ℕ → Bytes
memcpy m dst src n = memmove m dst src n

-- Each of the loop's three conditions ends it.
unfoldable pub strncmp : ℕ → Bytes → ℕ → ℕ → ℕ
strncmp zero m p q = 0
strncmp (suc n) m p q =
    let rest : ℕ = strncmp n m (p + 1) (q + 1) in
    if not (m p == 0) && (m p == m q) then rest else difference (m p) (m q)

-- The digits of atoi from `n` on, the string being the array from `s` on; an overflow, which C
-- leaves open, wraps around.
unfoldable pub atoi_digits : ℕ → List ℕ → Outcome ℕ
atoi_digits n [] = fault
atoi_digits n (c ∷ s) =
    let rest : Outcome ℕ = atoi_digits ((10 * n + 2 ^ 32 - (c - 48)) % 2 ^ 32) s in
    if isdigit c then rest else ok n

abbrev pub negated : ℕ → ℕ
negated n = (2 ^ 32 - n) % 2 ^ 32

unfoldable pub atoi : List ℕ → Outcome ℕ
atoi [] = fault
atoi (c ∷ s) =
    let rest : Outcome ℕ = atoi s in
    let signed : Outcome ℕ =
      (if c == 45
        then atoi_digits 0 s
        else ((if c == 43 then atoi_digits 0 s else atoi_digits 0 (c ∷ s)) >>= λ n.
            ok (negated n))) in
    if isspace c then rest else signed
