-- ===== src/Fat32.antt =====
-- src/fs_fat32.c: the FAT32 volume. The disk is read and written a sector at a time through the
-- buffer cache, which writes through, so the model reads and writes the sectors themselves.
pub mod Directory
pub mod Name
pub mod Sector
pub mod Alloc
pub mod Table
pub mod Entry
mod Tests
unfoldable pub use Sector.{
  Disk, bsize, read_byte, read16, read32, write32, chunk, write_chunk, zero_sector,
}
use k210_os.Prelude.{
  ℕ, zero, suc, ◌+◌, ◌-◌, ◌*◌, ◌/◌, ◌%◌, ◌^◌, ◌<◌, ◌≤◌, ◌≡◌, ◌≢◌, ◌↔◌, ◌⊎◌, inl, inr, refl, sym, ap,
  ◌∙◌, min, max, Bool, true, false, not, ◌&&◌, ◌||◌, Option, none, some, List, [], ◌∷◌, ◌++◌, map,
  arith, ltb, leb, ◌==◌, if◌then◌else◌, lt→ltb, ltb→lt, ltb→le, leb→le, eq→==, ==→eq, Bool-cases,
  length, get_elem?, get_or, set, replicate, take, drop, length-append, length-set,
  length-replicate, get_elem?-eq-get_or, get_or-set, get_or-append, set-set, set-get_or, Outcome,
  ok, panic, fault, hang, ◌>>=◌, ◌>>◌, assert, from_option, load, store, load-ok, store-ok, Yields,
  Yields->>=, Yields-map, holds_below, holds_below→test,
}

-- `struct fat32`
pub record Volume : Type 0 where
  pub first_data_sec : ℕ
  pub data_sec_cnt : ℕ
  pub data_clus_cnt : ℕ
  pub byts_per_clus : ℕ
  pub byts_per_sec : ℕ
  pub sec_per_clus : ℕ
  pub rsvd_sec_cnt : ℕ
  pub fat_cnt : ℕ
  pub hidd_sec : ℕ
  pub tot_sec : ℕ
  pub fat_sz : ℕ
  pub root_clus : ℕ

-- `uint32_t` arithmetic
abbrev pub u32 : ℕ → ℕ
u32 n = n % 2 ^ 32

-- the bytes of "FAT32" at 0x52
unfoldable pub has_signature : Disk → Bool
has_signature d =
    read_byte d 0 0x52 == 0x46
    && read_byte d 0 0x53 == 0x41
    && read_byte d 0 0x54 == 0x54
    && read_byte d 0 0x55 == 0x33
    && read_byte d 0 0x56 == 0x32

-- The part of fat32_init that reads the boot sector; a volume with no sectors in a cluster would
-- make it divide by zero.
unfoldable pub read_boot_sector : Disk → Outcome Volume
read_boot_sector d =
    if not (has_signature d)
    then panic
    else (let byts_per_sec : ℕ = read16 d 0 0x0B in
        let sec_per_clus : ℕ = read_byte d 0 0x0D in
        let rsvd_sec_cnt : ℕ = read16 d 0 0x0E in
        let fat_cnt : ℕ = read_byte d 0 0x10 in
        let tot_sec : ℕ = read32 d 0 0x20 in
        let fat_sz : ℕ = read32 d 0 0x24 in
        let first_data_sec : ℕ = u32 (rsvd_sec_cnt + fat_cnt * fat_sz) in
        let data_sec_cnt : ℕ = u32 (tot_sec + 2 ^ 32 - first_data_sec) in
        if sec_per_clus == 0
        then fault
        else if not (byts_per_sec == bsize)
        then panic
        else ok (record {
          first_data_sec = first_data_sec;
          data_sec_cnt = data_sec_cnt;
          data_clus_cnt = data_sec_cnt / sec_per_clus;
          byts_per_clus = sec_per_clus * byts_per_sec;
          byts_per_sec = byts_per_sec;
          sec_per_clus = sec_per_clus;
          rsvd_sec_cnt = rsvd_sec_cnt;
          fat_cnt = fat_cnt;
          hidd_sec = read32 d 0 0x1C;
          tot_sec = tot_sec;
          fat_sz = fat_sz;
          root_clus = read32 d 0 0x2C;
        }))

-- The part of fat32_init that reads the information sector: the count of empty clusters and the
-- next one.
unfoldable pub read_info_sector : Disk → Outcome (ℕ × ℕ)
read_info_sector d =
    if not (read32 d 1 0 == 0x41615252) then panic else ok (read32 d 1 0x1E8, read32 d 1 0x1EC)

abbrev pub fat32_eoc : ℕ
fat32_eoc = 0x0FFFFFF8

abbrev pub fat32_feoc : ℕ
fat32_feoc = 0x0FFFFFFF

module _ (fat : Volume) where
  unfoldable pub first_sec_of_clus : ℕ → ℕ
  first_sec_of_clus cluster =
      u32 ((cluster + 2 ^ 32 - 2) % 2 ^ 32 * fat.sec_per_clus + fat.first_data_sec)

  -- `fat_num` counts from 1.
  unfoldable pub fat_sec_of_clus : ℕ → ℕ → ℕ
  fat_sec_of_clus cluster fat_num =
      u32 (fat.rsvd_sec_cnt + u32 (cluster * 4) / fat.byts_per_sec + fat.fat_sz * (fat_num - 1))

  unfoldable pub fat_offset_of_clus : ℕ → ℕ
  fat_offset_of_clus cluster = u32 (cluster * 4) % fat.byts_per_sec

  unfoldable pub read_fat : Disk → ℕ → ℕ
  read_fat d cluster =
      if leb fat32_eoc cluster
      then cluster
      else if ltb (u32 (fat.data_clus_cnt + 1)) cluster
      then 0
      else read32 d (fat_sec_of_clus cluster 1) (fat_offset_of_clus cluster)

  -- whether it answers 0, and the disk
  unfoldable pub write_fat : Disk → ℕ → ℕ → Bool × Disk
  write_fat d cluster content =
      if ltb (u32 (fat.data_clus_cnt + 1)) cluster
      then (false, d)
      else (true, write32 d (fat_sec_of_clus cluster 1) (fat_offset_of_clus cluster) content)

  -- the `for` of zero_clus with the rounds left
  unfoldable pub zero_from : ℕ → ℕ → Disk → Disk
  zero_from zero sec d = d
  zero_from (suc rounds) sec d = zero_from rounds (u32 (sec + 1)) (zero_sector d sec)

  unfoldable pub zero_clus : Disk → ℕ → Disk
  zero_clus d cluster = zero_from fat.sec_per_clus (first_sec_of_clus cluster) d

  -- the entries of a sector
  abbrev pub ent_per_sec : ℕ
  ent_per_sec = fat.byts_per_sec / 4

  -- the inner `for` of alloc_clus: the first entry of the sector that is 0, from `j` on
  unfoldable pub free_entry : ℕ → Disk → ℕ → ℕ → Option ℕ
  free_entry zero d sec j = none
  free_entry (suc rounds) d sec j =
      let rest : Option ℕ = free_entry rounds d sec (j + 1) in
      if read32 d sec (j * 4) == 0 then some j else rest

  -- the outer `for` with the rounds left: the cluster, or 1 if the table is full
  unfoldable pub alloc_from : ℕ → Disk → ℕ → ℕ → ℕ × Disk
  alloc_from zero d sec i = (1, d)
  alloc_from (suc rounds) d sec i =
      let rest : ℕ × Disk = alloc_from rounds d (u32 (sec + 1)) (i + 1) in
      elim (free_entry ent_per_sec d sec 0) [
        | none ↦ rest
        | some j ↦
            let clus : ℕ = u32 (i * ent_per_sec + j) in
            (clus, zero_clus (write32 d sec (j * 4) fat32_feoc) clus)
      ]

  unfoldable pub alloc_clus : Disk → ℕ × Disk
  alloc_clus d = alloc_from fat.fat_sz d fat.rsvd_sec_cnt 0

  unfoldable pub free_clus : Disk → ℕ → Disk
  free_clus d cluster = (write_fat d cluster 0).1
