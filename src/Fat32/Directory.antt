-- ===== src/Fat32/Directory.antt =====
-- src/fs_fat32.c: the entries of a directory: emake, enext, the search of dirlookup, eupdate and
-- eremove. An entry on the disk is 32 bytes; `filename` of a struct dirent is an address of the
-- memory, as are the strings.
pub mod Entries
pub mod LongName
pub mod Parts
pub mod ReadBack
pub mod RoundTrip
pub mod Spelling
pub mod Stored
pub mod Sectors
pub mod Shapes
pub mod Writing
pub mod Lookup
pub mod OnDisk
mod Tests
use k210_os.Prelude.{
  ℕ, zero, suc, ◌+◌, ◌-◌, ◌*◌, ◌/◌, ◌%◌, ◌^◌, ◌<◌, ◌≤◌, ◌≡◌, ◌≢◌, ◌↔◌, ◌⊎◌, inl, inr, refl, sym, ap,
  ◌∙◌, min, max, Bool, true, false, not, ◌&&◌, ◌||◌, Option, none, some, List, [], ◌∷◌, ◌++◌, map,
  arith, ltb, leb, ◌==◌, if◌then◌else◌, lt→ltb, ltb→lt, ltb→le, leb→le, eq→==, ==→eq, Bool-cases,
  length, get_elem?, get_or, set, replicate, take, drop, length-append, length-set,
  length-replicate, get_elem?-eq-get_or, get_or-set, get_or-append, set-set, set-get_or, Outcome,
  ok, panic, fault, hang, ◌>>=◌, ◌>>◌, assert, from_option, load, store, load-ok, store-ok, Yields,
  Yields->>=, Yields-map, holds_below, holds_below→test,
}
use k210_os.Strings.{Bytes, put, memset, strncmp}
use k210_os.Fat32.Sector.{Disk}
use k210_os.Fat32.{Volume, u32}
use k210_os.Fat32.Entry.{Dirent, is_directory, reloc_clus, rw_clus_read, rw_clus_write}
use k210_os.Fat32.Name.{
  char_short_name, char_long_name, max_filename, cal_checksum, generate_shortname,
}

-- ATTR_LONG_NAME, LAST_LONG_ENTRY, EMPTY_ENTRY, END_OF_ENTRY
abbrev pub attr_long_name : ℕ
attr_long_name = 0x0F

abbrev pub last_long_entry : ℕ
last_long_entry = 0x40

abbrev pub empty_entry : ℕ
empty_entry = 0xE5

abbrev pub end_of_entry : ℕ
end_of_entry = 0

-- The fields of a `union dentry`: a byte, two and four bytes at an offset.
abbrev pub byte_at : List ℕ → ℕ → ℕ
byte_at de i = get_or de i 0

abbrev pub wide_at : List ℕ → ℕ → ℕ
wide_at de i = byte_at de i + byte_at de (i + 1) * 2 ^ 8

abbrev pub order : List ℕ → ℕ
order de = byte_at de 0

abbrev pub attr : List ℕ → ℕ
attr de = byte_at de 11

-- `n` wide characters from an offset on
unfoldable pub wides_at : List ℕ → ℕ → ℕ → List ℕ
wides_at de i zero = []
wides_at de i (suc n) = wide_at de i ∷ wides_at de (i + 2) n

-- `order & LAST_LONG_ENTRY` and `order & ~LAST_LONG_ENTRY`
abbrev pub is_last : ℕ → Bool
is_last b = b / last_long_entry % 2 == 1

abbrev pub without_last : ℕ → ℕ
without_last b = if is_last b then b - last_long_entry else b

-- snstr on the wide characters of an array; the second loop writes a 0 less than are left.
unfoldable pub snstr : Bytes → ℕ → List ℕ → Bytes
snstr m dst [] = m
snstr m dst (u ∷ us) =
    let rest : Bytes = snstr (put m dst (u % 256)) (dst + 1) us in
    if u == 0 then memset (length us) m dst 0 else rest

-- The bytes of a short name up to a ' '.
unfoldable pub up_to_blank : List ℕ → List ℕ
up_to_blank [] = []
up_to_blank (c ∷ s) = let rest : List ℕ = up_to_blank s in if c == 32 then [] else c ∷ rest

unfoldable pub put_all : Bytes → ℕ → List ℕ → Bytes
put_all m dst [] = m
put_all m dst (c ∷ s) = put_all (put m dst c) (dst + 1) s

unfoldable pub read_entry_name : Bytes → ℕ → List ℕ → Bytes
read_entry_name m buffer d =
    if attr d == attr_long_name
    then (let m1 : Bytes = snstr m buffer (wides_at d 1 5) in
        let m2 : Bytes = snstr m1 (buffer + 5) (wides_at d 14 6) in
        snstr m2 (buffer + 11) (wides_at d 28 2))
    else (let extension : List ℕ = take 3 (drop 8 d) in
        let dot : List ℕ = if byte_at d 8 == 32 then [] else 46 ∷ [] in
        put_all (memset (char_short_name + 2) m buffer 0) buffer
          (up_to_blank (take 8 d) ++ dot ++ up_to_blank extension))

unfoldable pub read_entry_info : Dirent → List ℕ → Dirent
read_entry_info entry d =
    let clus : ℕ = wide_at d 20 * 2 ^ 16 + wide_at d 26 in
    record entry {
      attribute = attr d;
      first_clus = clus;
      file_size = wide_at d 28 + wide_at d 30 * 2 ^ 16;
      cur_clus = clus;
      clus_cnt = 0;
    }

-- What enext returns: -1, 0 for empty slots or 1 for a file.
pub data Next : Type 0 where
  no_more : Next
  slots : Next
  file : Next

-- With the return value: `*count`, the memory with the name, the file and the directory.
pub record Nexted : Type 0 where
  pub type : Next
  pub count : ℕ
  pub memory : Bytes
  pub ep : Dirent
  pub dp : Dirent

-- What the loop of enext keeps: the empty slots that were met, and whether `count` is not NULL.
pub record Scanning : Type 0 where
  pub cnt : ℕ
  pub counts : Bool
  pub so_far : Nexted

-- A long entry in the loop of enext. Its part of the name goes to its place in the name of `ep`,
-- which is at `name`; there is room for twenty parts.
unfoldable pub enext_long : ℕ → List ℕ → Scanning → Outcome (Scanning ⊎ Nexted)
enext_long name de s =
    let r : Nexted = s.so_far in
    let lcnt : ℕ = without_last (order de) in
    let named : Bytes = read_entry_name r.memory (name + (lcnt - 1) * char_long_name) de in
    let counted : Scanning = record s {
      counts = false;
      so_far = record r { count = lcnt + 1; memory = named };
    } in
    if lcnt == 0 || ltb 20 lcnt
    then fault
    else if is_last (order de)
    then (if s.counts then ok (inl counted) else fault)
    else ok (inl (record s { so_far = record r { memory = named } }))

-- A short entry: enext returns 1.
unfoldable pub enext_short : ℕ → List ℕ → Scanning → Nexted
enext_short name de s =
    let r : Nexted = s.so_far in
    let named : Nexted = record r { count = 1; memory = read_entry_name r.memory name de } in
    record (if s.counts then named else r) { type = file; ep = read_entry_info r.ep de }

-- What a round of the loop of enext does with an entry: it goes on, or it returns. Behind the last
-- long entry of a name `count` is NULL, and is written to for empty slots.
unfoldable pub enext_entry : ℕ → List ℕ → Scanning → Outcome (Scanning ⊎ Nexted)
enext_entry name de s =
    let r : Nexted = s.so_far in
    if order de == end_of_entry
    then ok (inr (record r { type = no_more }))
    else if order de == empty_entry
    then ok (inl (record s { cnt = s.cnt + 1 }))
    else if ltb 0 s.cnt
    then (if s.counts then ok (inr (record r { type = slots; count = s.cnt })) else fault)
    else if attr de == attr_long_name
    then enext_long name de s
    else ok (inr (enext_short name de s))

module _ (fat : Volume) where
  -- The 32 bytes at an offset of the directory, or none behind its end; the copies are in the
  -- kernel, and succeed.
  unfoldable pub read_dentry : Dirent → ℕ → Disk → Outcome (Option (List ℕ) × Dirent)
  read_dentry dp off d = do
    (at, dp', d') ← reloc_clus fat false dp off d
    elim at [
      | none ↦ ok (none, dp')
      | some off2 ↦ do
        de ← rw_clus_read fat (λ a n. true) d' dp'.cur_clus 0 off2 32
        ok (if length de == 32 then some de else none, dp')
    ]

  -- The `for` of enext; `fuel` bounds the entries that are met.
  unfoldable pub enext_loop : ℕ → ℕ → ℕ → Disk → Scanning → Outcome Nexted
  enext_loop zero name off d s = hang
  enext_loop (suc fuel) name off d s = do
    (got, dp') ← read_dentry s.so_far.dp off d
    let s' : Scanning = record s { so_far = record (s.so_far) { dp = dp' } }
    elim got [
      | none ↦ ok (record (s'.so_far) { type = no_more })
      | some de ↦ do
        r ← enext_entry name de s'
        elim r [ inl s2 ↦ enext_loop fuel name (u32 (off + 32)) d s2 | inr result ↦ ok result ]
    ]

  -- `valid` says whether the directory is.
  unfoldable pub enext :
      ℕ → Bool → Dirent → Dirent → Bool → ℕ → ℕ → ℕ → Bytes → Disk → Outcome Nexted
  enext fuel valid dp ep ep_valid name off count m d =
      let start : Nexted = record { type = no_more; count = count; memory = m; ep = ep; dp = dp } in
      let cleared : Bytes = memset (max_filename + 1) m name 0 in
      let loop : Outcome Nexted =
        enext_loop fuel name off d
          (record { cnt = 0; counts = true; so_far = record start { memory = cleared } }) in
      if not (is_directory dp)
      then panic
      else if ep_valid
      then panic
      else if not (off % 32 == 0)
      then panic
      else if not valid
      then ok start
      else loop
