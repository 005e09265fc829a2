-- ===== src/Fat32/Entry.antt =====
-- src/fs_fat32.c: files as chains of clusters: reloc_clus, rw_clus, eread, ewrite and etrunc.
pub mod Chain
pub mod Cluster
pub mod Content
pub mod Truncate
use k210_os.Prelude.{
  ℕ, zero, suc, ◌+◌, ◌-◌, ◌*◌, ◌/◌, ◌%◌, ◌^◌, ◌<◌, ◌≤◌, ◌≡◌, ◌≢◌, ◌↔◌, ◌⊎◌, inl, inr, refl, sym, ap,
  ◌∙◌, min, max, Bool, true, false, not, ◌&&◌, ◌||◌, Option, none, some, List, [], ◌∷◌, ◌++◌, map,
  arith, ltb, leb, ◌==◌, if◌then◌else◌, lt→ltb, ltb→lt, ltb→le, leb→le, eq→==, ==→eq, Bool-cases,
  length, get_elem?, get_or, set, replicate, take, drop, length-append, length-set,
  length-replicate, get_elem?-eq-get_or, get_or-set, get_or-append, set-set, set-get_or, Outcome,
  ok, panic, fault, hang, ◌>>=◌, ◌>>◌, assert, from_option, load, store, load-ok, store-ok, Yields,
  Yields->>=, Yields-map, holds_below, holds_below→test,
}
use k210_os.Fat32.Sector.{Disk, bsize, chunk, write_chunk}
use k210_os.Fat32.{
  Volume, u32, fat32_eoc, read_fat, write_fat, alloc_clus, free_clus, first_sec_of_clus,
}

-- The fields of `struct dirent` that these operations use.
pub record Dirent : Type 0 where
  pub attribute : ℕ
  pub first_clus : ℕ
  pub file_size : ℕ
  pub cur_clus : ℕ
  pub clus_cnt : ℕ
  pub dirty : Bool

-- `attribute & ATTR_DIRECTORY` and `attribute & ATTR_READ_ONLY`
abbrev pub is_directory : Dirent → Bool
is_directory e = e.attribute / 16 % 2 == 1

abbrev pub is_read_only : Dirent → Bool
is_read_only e = e.attribute % 2 == 1

-- Where a walk along the chain ends: at a cluster, or past the last one.
pub data Walk : Type 0 where
  there : Dirent → Disk → Walk
  beyond : Dirent → Disk → Walk

module _ (fat : Volume) where
  -- The first `while` of reloc_clus with the rounds left; the number read is an `int`, so one
  -- from 2 ^ 31 on is below the end mark.
  unfoldable pub advance : ℕ → Bool → Dirent → Disk → Walk
  advance zero alloc e d = there e d
  advance (suc rounds) alloc e d =
      let clus : ℕ = read_fat fat d e.cur_clus in
      elim (leb fat32_eoc clus && ltb clus (2 ^ 31)) [
        | false ↦
            advance rounds alloc (record e { cur_clus = clus; clus_cnt = u32 (e.clus_cnt + 1) }) d
        | true ↦ elim alloc [
          | false ↦ beyond (record e { cur_clus = e.first_clus; clus_cnt = 0 }) d
          | true ↦
              let fresh : ℕ × Disk = alloc_clus fat d in
              advance rounds true (record e { cur_clus = fresh.0; clus_cnt = u32 (e.clus_cnt + 1) })
                (write_fat fat fresh.1 e.cur_clus fresh.0).1
        ]
      ]

  -- The second `while` of reloc_clus.
  unfoldable pub rewind : ℕ → Dirent → Disk → Outcome Dirent
  rewind zero e d = ok e
  rewind (suc rounds) e d =
      let clus : ℕ = read_fat fat d e.cur_clus in
      let rest : Outcome Dirent =
        rewind rounds (record e { cur_clus = clus; clus_cnt = u32 (e.clus_cnt + 1) }) d in
      if leb fat32_eoc clus then panic else rest

  -- The offset in the cluster, or none for -1.
  unfoldable pub reloc_clus : Bool → Dirent → ℕ → Disk → Outcome (Option ℕ × Dirent × Disk)
  reloc_clus alloc entry off d =
      let clus_num : ℕ = off / fat.byts_per_clus in
      elim (advance (clus_num - entry.clus_cnt) alloc entry d) [
        | beyond e d' ↦ ok (none, e, d')
        | there e d' ↦
            if ltb clus_num e.clus_cnt
            then (rewind clus_num (record e { cur_clus = e.first_clus; clus_cnt = 0 }) d' >>= λ e'.
                ok (some (off % fat.byts_per_clus), e', d'))
            else ok (some (off % fat.byts_per_clus), e, d')
      ]

  -- The loop of rw_clus for a read, from `tot` bytes on. `copyout` tells of an address and a
  -- length whether either_copyout succeeds.
  unfoldable pub read_sectors : (ℕ → ℕ → Bool) → ℕ → Disk → ℕ → ℕ → ℕ → ℕ → Outcome (List ℕ)
  read_sectors copyout zero d sec off address left = hang
  read_sectors copyout (suc fuel) d sec off address left =
      let m : ℕ = min left (bsize - off % bsize) in
      let rest : Outcome (List ℕ) =
        (read_sectors copyout fuel d (u32 (sec + 1)) (off + m) (address + m) (left - m) >>= λ more.
        ok (chunk d sec (off % bsize) m ++ more)) in
      if left == 0 then ok [] else if copyout address m then rest else ok []

  -- rw_clus for a read: the bytes that reach `address`
  unfoldable pub rw_clus_read : (ℕ → ℕ → Bool) → Disk → ℕ → ℕ → ℕ → ℕ → Outcome (List ℕ)
  rw_clus_read copyout d cluster address off n =
      if ltb fat.byts_per_clus (u32 (off + n))
      then panic
      else read_sectors copyout (n + 1) d
          (u32 (first_sec_of_clus fat cluster + off / fat.byts_per_sec)) (off % fat.byts_per_sec)
          address n

  -- The loop of rw_clus for a write; `copyin` gives the bytes at an address, or none for -1. The
  -- count of bytes written.
  unfoldable pub write_sectors :
      (ℕ → ℕ → Option (List ℕ)) → ℕ → Disk → ℕ → ℕ → ℕ → ℕ → Outcome (ℕ × Disk)
  write_sectors copyin zero d sec off address left = hang
  write_sectors copyin (suc fuel) d sec off address left =
      let m : ℕ = min left (bsize - off % bsize) in
      let rest : Outcome (ℕ × Disk) = elim (copyin address m) [
        | none ↦ ok (0, d)
        | some bytes ↦
            (write_sectors copyin fuel (write_chunk d sec (off % bsize) bytes) (u32 (sec + 1))
                (off + m) (address + m) (left - m)
              >>= λ r. ok (m + r.0, r.1))
      ] in
      if left == 0 then ok (0, d) else rest

  unfoldable pub rw_clus_write :
      (ℕ → ℕ → Option (List ℕ)) → Disk → ℕ → ℕ → ℕ → ℕ → Outcome (ℕ × Disk)
  rw_clus_write copyin d cluster address off n =
      if ltb fat.byts_per_clus (u32 (off + n))
      then panic
      else write_sectors copyin (n + 1) d
          (u32 (first_sec_of_clus fat cluster + off / fat.byts_per_sec)) (off % fat.byts_per_sec)
          address n

  -- The loop of eread with `left` bytes to go; the answer of reloc_clus is not looked at.
  unfoldable pub eread_loop :
      (ℕ → ℕ → Bool) → ℕ → Dirent → ℕ → ℕ → ℕ → Disk → Outcome (List ℕ × Dirent × Disk)
  eread_loop copyout zero e address off left d = hang
  eread_loop copyout (suc fuel) e address off left d =
      let step : Outcome (List ℕ × Dirent × Disk) = (do
        (_, e', d') ← reloc_clus false e off d
        let m : ℕ = min left (fat.byts_per_clus - off % fat.byts_per_clus)
        bytes ← rw_clus_read copyout d' e'.cur_clus address (off % fat.byts_per_clus) m
        let rest : Outcome (List ℕ × Dirent × Disk) =
            (eread_loop copyout fuel e' (address + m) (off + m) (left - m) d' >>= λ r.
            ok (bytes ++ r.0, r.1, r.2))
        if length bytes == m then rest else ok ([], e', d')) in
      if ltb e.cur_clus fat32_eoc && ltb 0 left then step else ok ([], e, d)

  unfoldable pub eread :
      (ℕ → ℕ → Bool) → Dirent → ℕ → ℕ → ℕ → Disk → Outcome (List ℕ × Dirent × Disk)
  eread copyout e address off n d =
      if ltb e.file_size off || (ltb (u32 (off + n)) off || is_directory e)
      then ok ([], e, d)
      else (let n' : ℕ = if ltb e.file_size (off + n) then e.file_size - off else n in
          eread_loop copyout (n' + 1) e address off n' d)

  -- The loop of ewrite: the count of bytes written, the offset reached, the entry and the disk.
  unfoldable pub ewrite_loop :
      (ℕ → ℕ → Option (List ℕ)) → ℕ → Dirent → ℕ → ℕ → ℕ → Disk → Outcome (ℕ × ℕ × Dirent × Disk)
  ewrite_loop copyin zero e address off left d = hang
  ewrite_loop copyin (suc fuel) e address off left d =
      let step : Outcome (ℕ × ℕ × Dirent × Disk) = (do
        (_, e', d') ← reloc_clus true e off d
        let m : ℕ = min left (fat.byts_per_clus - off % fat.byts_per_clus)
        (wrote, d2) ← rw_clus_write copyin d' e'.cur_clus address (off % fat.byts_per_clus) m
        let rest : Outcome (ℕ × ℕ × Dirent × Disk) =
            (ewrite_loop copyin fuel e' (address + m) (off + m) (left - m) d2 >>= λ r.
            ok (m + r.0, r.1, r.2, r.3))
        if wrote == m then rest else ok (0, off, e', d2)) in
      if ltb 0 left then step else ok (0, off, e, d)

  -- none for -1
  unfoldable pub ewrite :
      (ℕ → ℕ → Option (List ℕ)) → Dirent → ℕ → ℕ → ℕ → Disk → Outcome (Option ℕ × Dirent × Disk)
  ewrite copyin entry address off n d =
      if ltb entry.file_size off
        || (ltb (u32 (off + n)) off || (ltb 0xFFFFFFFF (off + n) || is_read_only entry))
      then ok (none, entry, d)
      else (do
        let fresh : ℕ × Disk = alloc_clus fat d
        let start : Dirent × Disk =
            (if entry.first_clus == 0
              then (
                record entry {
                  cur_clus = fresh.0;
                  first_clus = fresh.0;
                  clus_cnt = 0;
                  dirty = true;
                },
                fresh.1,
              )
              else (entry, d))
        (tot, off', e', d2) ← ewrite_loop copyin (n + 1) start.0 address off n start.1
        if ltb 0 n && ltb e'.file_size off'
            then ok (some tot, record e' { file_size = off'; dirty = true }, d2)
            else ok (some tot, e', d2))

  -- The loop of etrunc.
  unfoldable pub free_chain : ℕ → ℕ → Disk → Outcome Disk
  free_chain zero clus d = hang
  free_chain (suc fuel) clus d =
      let rest : Outcome Disk = free_chain fuel (read_fat fat d clus) (free_clus fat d clus) in
      if leb 2 clus && ltb clus fat32_eoc then rest else ok d

  -- A chain has fewer clusters than the volume, so that many rounds are enough for one with no loop.
  unfoldable pub etrunc : Dirent → Disk → Outcome (Dirent × Disk)
  etrunc entry d = free_chain (fat.data_clus_cnt + 3) entry.first_clus d >>= λ d'.
      ok (record entry { file_size = 0; first_clus = 0; dirty = true }, d')
