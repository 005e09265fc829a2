-- ===== src/Fat32/Directory/Entries.antt =====
-- src/fs_fat32.c: emake, eupdate and eremove, which write the entries of a directory.
use k210_os.Prelude.{
  ℕ, zero, suc, ◌+◌, ◌-◌, ◌*◌, ◌/◌, ◌%◌, ◌^◌, Bool, true, false, not, ◌||◌, Option, none, some,
  List, [], ◌∷◌, ◌++◌, leb, ◌==◌, if◌then◌else◌, length, replicate, take, drop, Outcome, ok, panic,
  fault, ◌>>=◌,
}
use k210_os.Strings.{Bytes}
use k210_os.Fat32.Sector.{Disk}
use k210_os.Fat32.{Volume, u32}
use k210_os.Fat32.Entry.{Dirent, is_directory, reloc_clus, rw_clus_read, rw_clus_write}
use k210_os.Fat32.Name.{char_short_name, char_long_name, cal_checksum, generate_shortname}
use k210_os.Fat32.Directory.{attr_long_name, last_long_entry, empty_entry, byte_at, without_last}

-- The inner `for` of emake: wide characters from the address `p` on, 0xFFFF behind the end.
unfoldable pub wide_chars : ℕ → Bytes → ℕ → Bool → List ℕ
wide_chars zero m p end = []
wide_chars (suc n) m p true = 0xFFFF ∷ wide_chars n m p true
wide_chars (suc n) m p false = m p ∷ wide_chars n m (p + 1) (m p == 0)

unfoldable pub wide_bytes : List ℕ → List ℕ
wide_bytes [] = []
wide_bytes (u ∷ us) = u % 2 ^ 8 ∷ u / 2 ^ 8 % 2 ^ 8 ∷ wide_bytes us

-- The bytes of a long entry with an order, a checksum and thirteen wide characters.
unfoldable pub lne_bytes : ℕ → ℕ → List ℕ → List ℕ
lne_bytes order checksum us =
    order ∷ wide_bytes (take 5 us)
    ++ (attr_long_name ∷ 0 ∷ checksum ∷ wide_bytes (take 6 (drop 5 us))
        ++ (0 ∷ 0 ∷ wide_bytes (drop 11 us)))

-- The long entry `i` of a name at an address with `entcnt` of them. At most twenty are needed for a
-- name, so the order and LAST_LONG_ENTRY have no bit in common.
unfoldable pub long_entry : ℕ → ℕ → Bytes → ℕ → ℕ → List ℕ
long_entry i entcnt m filename checksum =
    lne_bytes (if i == entcnt then i + last_long_entry else i) checksum
      (wide_chars char_long_name m (filename + (i - 1) * char_long_name) false)

-- The outer `for` of emake, from `i` down.
unfoldable pub long_entries : ℕ → ℕ → Bytes → ℕ → ℕ → List (List ℕ)
long_entries zero entcnt m filename checksum = []
long_entries (suc i) entcnt m filename checksum =
    long_entry (suc i) entcnt m filename checksum ∷ long_entries i entcnt m filename checksum

-- The bytes of a short entry.
unfoldable pub sne_bytes : List ℕ → ℕ → ℕ → ℕ → List ℕ
sne_bytes name attribute clus size =
    take char_short_name name
    ++ (attribute % 2 ^ 8
          ∷ 0
          ∷ 0
          ∷ 0
          ∷ 0
          ∷ 0
          ∷ 0
          ∷ 0
          ∷ 0
          ∷ wide_bytes (clus / 2 ^ 16 % 2 ^ 16 ∷ 0 ∷ 0 ∷ clus % 2 ^ 16 ∷ [])
        ++ wide_bytes (size % 2 ^ 16 ∷ size / 2 ^ 16 % 2 ^ 16 ∷ []))

-- the names of the entries 0 and 32
abbrev pub dot_name : List ℕ
dot_name = 46 ∷ replicate 10 32

abbrev pub dot_dot_name : List ℕ
dot_dot_name = 46 ∷ 46 ∷ replicate 9 32

-- The C string at an address, of `n` bytes at most.
unfoldable pub string_at : ℕ → Bytes → ℕ → List ℕ
string_at zero m p = []
string_at (suc n) m p =
    let rest : List ℕ = string_at n m (p + 1) in if m p == 0 then [] else m p ∷ rest

-- The entries that emake writes, in the order of their offsets; `filename` is the address of the
-- name of `ep`, which is 255 bytes long at most.
unfoldable pub dentries : Dirent → Bytes → ℕ → ℕ → Outcome (List (List ℕ))
dentries ep m filename off =
    let name : List ℕ = string_at 255 m filename in
    let entcnt : ℕ = (length name + char_long_name - 1) / char_long_name in
    let named : Outcome (List (List ℕ)) = (do
      shortname ← generate_shortname name
      ok (
          long_entries entcnt entcnt m filename (cal_checksum shortname)
          ++ sne_bytes shortname ep.attribute ep.first_clus ep.file_size ∷ [])) in
    if leb off 32
    then ok (sne_bytes (if off == 0 then dot_name else dot_dot_name) 0x10 ep.first_clus 0 ∷ [])
    else named

module _ (fat : Volume) where
  -- reloc_clus to an offset of the directory that has been written: the offset in the cluster.
  unfoldable pub locate : Dirent → ℕ → Disk → Outcome (ℕ × Dirent × Disk)
  locate dp off d = do
    (at, dp', d') ← reloc_clus fat false dp off d
    elim at [ none ↦ fault | some off2 ↦ ok (off2, dp', d') ]

  -- rw_clus at an offset of the cluster, from and to the kernel
  unfoldable pub read_here : Dirent → ℕ → ℕ → Disk → Outcome (List ℕ)
  read_here dp off2 n d = rw_clus_read fat (λ a k. true) d dp.cur_clus 0 off2 n

  unfoldable pub write_here : Dirent → ℕ → List ℕ → Disk → Outcome Disk
  write_here dp off2 bytes d =
      rw_clus_write fat (λ a n. some (take n (drop a bytes))) d dp.cur_clus 0 off2 (length bytes)
      >>= λ r. ok r.1

  -- reloc_clus with allocation, which is always at a cluster, and rw_clus of bytes of the kernel.
  unfoldable pub write_dentry : Dirent → ℕ → List ℕ → Disk → Outcome (Dirent × Disk)
  write_dentry dp off de d = do
    (at, dp', d') ← reloc_clus fat true dp off d
    elim at [ none ↦ fault | some off2 ↦ write_here dp' off2 de d' >>= λ d2. ok (dp', d2) ]

  unfoldable pub write_dentries : Dirent → ℕ → List (List ℕ) → Disk → Outcome (Dirent × Disk)
  write_dentries dp off [] d = ok (dp, d)
  write_dentries dp off (de ∷ des) d = do
    (dp', d') ← write_dentry dp off de d
    write_dentries dp' (u32 (off + 32)) des d'

  unfoldable pub emake : Dirent → Dirent → Bytes → ℕ → ℕ → Disk → Outcome (Dirent × Disk)
  emake dp ep m filename off d =
      let make : Outcome (Dirent × Disk) =
        (dentries ep m filename off >>= λ des. write_dentries dp off des d) in
      if not (is_directory dp) then panic else if not (off % 32 == 0) then panic else make

  -- The fields that eupdate changes in a short entry.
  unfoldable pub updated : List ℕ → Dirent → List ℕ
  updated de entry =
      take 20 de
      ++ wide_bytes (entry.first_clus / 2 ^ 16 % 2 ^ 16 ∷ [])
      ++ take 4 (drop 22 de)
      ++ wide_bytes (entry.first_clus % 2 ^ 16 ∷ [])
      ++ wide_bytes (entry.file_size % 2 ^ 16 ∷ entry.file_size / 2 ^ 16 % 2 ^ 16 ∷ [])

  -- `off` is the offset of the entry in its parent `dp`. The entry, its parent and the disk.
  unfoldable pub eupdate : Bool → Dirent → Dirent → ℕ → Disk → Outcome (Dirent × Dirent × Disk)
  eupdate valid entry dp off d =
      let update : Outcome (Dirent × Dirent × Disk) = (do
        (off1, dp1, d1) ← locate dp off d
        first ← read_here dp1 off1 1 d1
        (off2, dp2, d2) ← locate dp1 (u32 (off + without_last (byte_at first 0) * 32)) d1
        de ← read_here dp2 off2 32 d2
        d3 ← write_here dp2 off2 (updated de entry) d2
        ok (record entry { dirty = false }, dp2, d3)) in
      if not entry.dirty || not valid then ok (entry, dp, d) else update

  -- The `for` of eremove, with the rounds left and the answer of reloc_clus.
  unfoldable pub mark_empty : ℕ → Dirent → Option ℕ → ℕ → Disk → Outcome (Dirent × Disk)
  mark_empty zero dp at off d = ok (dp, d)
  mark_empty (suc n) dp none off d = fault
  mark_empty (suc n) dp (some off2) off d = do
    d1 ← write_here dp off2 (empty_entry ∷ []) d
    (at, dp', d2) ← reloc_clus fat false dp (u32 (off + 32)) d1
    mark_empty n dp' at (u32 (off + 32)) d2

  -- Whether the entry is valid still, its parent and the disk.
  unfoldable pub eremove : Bool → Dirent → ℕ → Disk → Outcome (Bool × Dirent × Disk)
  eremove valid dp off d =
      let removal : Outcome (Bool × Dirent × Disk) = (do
        (off2, dp1, d1) ← locate dp off d
        first ← read_here dp1 off2 1 d1
        (dp2, d2) ← mark_empty (without_last (byte_at first 0) + 1) dp1 (some off2) off d1
        ok (false, dp2, d2)) in
      if valid then removal else ok (valid, dp, d)
