-- ===== src/Fat32/Table.antt =====
-- The file allocation table as a map from clusters to numbers.
use k210_os.Prelude.{
  ℕ, ◌+◌, ◌*◌, ◌/◌, ◌%◌, ◌^◌, ◌<◌, ◌≤◌, ◌≡◌, ◌≢◌, ◌⊎◌, inl, inr, refl, true, false, arith, ltb, leb,
  ◌==◌, if◌then◌else◌, ==→eq, Bool-cases,
}
use k210_os.Fat32.Sector.{Disk, bsize, read32, write32, read32-write32_self, read32-write32_apart}
use k210_os.Fat32.{Volume, u32, fat32_eoc, read_fat, write_fat, fat_sec_of_clus, fat_offset_of_clus}

-- What formatting makes sure of: sectors of 512 bytes, a table in front of the data area that is
-- large enough, clusters below the end mark, and sector numbers in 32 bits.
pub record IsMounted (fat : Volume) : Type 0 where
  pub sector : fat.byts_per_sec ≡ bsize
  pub some_sectors : 0 < fat.sec_per_clus
  pub bytes : fat.byts_per_clus ≡ fat.sec_per_clus * bsize
  pub clusters : fat.data_clus_cnt + 1 < fat32_eoc
  pub covers : (fat.data_clus_cnt + 2) * 4 ≤ fat.fat_sz * bsize
  pub before : fat.rsvd_sec_cnt + fat.fat_sz ≤ fat.first_data_sec
  pub sectors : fat.first_data_sec + fat.fat_sz * 128 * fat.sec_per_clus < 2 ^ 32

-- the number in the table for a cluster, wherever that is
abbrev pub table : Volume → Disk → ℕ → ℕ
table fat d k = read32 d (fat.rsvd_sec_cnt + k * 4 / bsize) (k * 4 % bsize)

module _ (fat : Volume) (v : IsMounted fat) (c : ℕ) (h : c ≤ fat.data_clus_cnt + 1) where
  pub fat_sec_of_clus-eq : fat_sec_of_clus fat c 1 ≡ fat.rsvd_sec_cnt + c * 4 / bsize
  unfolding fat_sec_of_clus
  fat_sec_of_clus-eq = rw v.sector (omega (arith, v.clusters, v.covers, v.before, v.sectors))

  pub fat_offset_of_clus-eq : fat_offset_of_clus fat c ≡ c * 4 % bsize
  unfolding fat_offset_of_clus
  fat_offset_of_clus-eq = rw v.sector (omega (arith, v.clusters))

  pub read_fat-table : (d : Disk) → read_fat fat d c ≡ table fat d c
  unfolding read_fat
  read_fat-table d =
      let low : leb fat32_eoc c ≡ false = ground (arith, v.clusters) in
      let in_range : ltb (u32 (fat.data_clus_cnt + 1)) c ≡ false = ground (arith, v.clusters) in
      rw (low, in_range, fat_sec_of_clus-eq, fat_offset_of_clus-eq)

  pub write_fat-table :
      (d : Disk) (x : ℕ)
      → write_fat fat d c x ≡ (true, write32 d (fat.rsvd_sec_cnt + c * 4 / bsize) (c * 4 % bsize) x)
  unfolding write_fat
  write_fat-table d x =
      let in_range : ltb (u32 (fat.data_clus_cnt + 1)) c ≡ false = ground (arith, v.clusters) in
      rw (in_range, fat_sec_of_clus-eq, fat_offset_of_clus-eq)

pub table-write32 :
    (fat : Volume) (d : Disk) (c k x : ℕ)
    → x < 2 ^ 32
    → table fat (write32 d (fat.rsvd_sec_cnt + c * 4 / bsize) (c * 4 % bsize) x) k
      ≡ (if c == k then x else table fat d k)
table-write32 fat d c k x h = elim (Bool-cases (c == k)) [
  | inl e ↦
      rw (e, ==→eq c k e)
        (read32-write32_self d (fat.rsvd_sec_cnt + k * 4 / bsize) (k * 4 % bsize) x h)
  | inr e ↦
      let ne : c ≢ k = ground arith in
      rw e (
        read32-write32_apart d (fat.rsvd_sec_cnt + c * 4 / bsize) (c * 4 % bsize) x
          (fat.rsvd_sec_cnt + k * 4 / bsize) (k * 4 % bsize) (apart ne))
]
  where
    apart :
        c ≢ k
        → (fat.rsvd_sec_cnt + k * 4 / bsize ≢ fat.rsvd_sec_cnt + c * 4 / bsize)
          ⊎ ((c * 4 % bsize + 4 ≤ k * 4 % bsize) ⊎ (k * 4 % bsize + 4 ≤ c * 4 % bsize))
    apart ne = grind arith

-- write_fat on a cluster of the volume answers 0, and read_fat then gives what was written there
-- and what it gave before at every other cluster.
pub read_fat-write_fat :
    (fat : Volume) (d : Disk) (c k x : ℕ)
    → IsMounted fat
    → c ≤ fat.data_clus_cnt + 1
    → k ≤ fat.data_clus_cnt + 1
    → x < 2 ^ 32
    → ((write_fat fat d c x).0 ≡ true)
      × (read_fat fat (write_fat fat d c x).1 k ≡ (if c == k then x else read_fat fat d k))
read_fat-write_fat fat d c k x v hc hk hx =
    rw (write_fat-table fat v c hc d x, read_fat-table fat v k hk, read_fat-table fat v k hk d)
      (refl, table-write32 fat d c k x hx)

-- Outside the volume write_fat answers -1 and writes nothing, and read_fat answers 0 below the end
-- mark and the number itself from there on.
pub read_fat-out_of_range :
    (fat : Volume) (d : Disk) (c x : ℕ)
    → IsMounted fat
    → fat.data_clus_cnt + 1 < c
    → (write_fat fat d c x ≡ (false, d)) × (read_fat fat d c ≡ (if leb fat32_eoc c then c else 0))
unfolding write_fat read_fat
read_fat-out_of_range fat d c x v h =
    let out : ltb (u32 (fat.data_clus_cnt + 1)) c ≡ true = ground (arith, v.clusters) in
    rw out (refl, refl)
