-- ===== src/Fat32/Tests.antt =====
-- A small volume: one sector of table, six clusters of one sector, a file of 600 bytes in two.
use k210_os.Prelude.{
  ℕ, zero, suc, ◌+◌, ◌-◌, ◌*◌, ◌<◌, ◌≤◌, ◌≡◌, inr, refl, min, true, false, some, ◌==◌,
  if◌then◌else◌, [], ◌∷◌, arith, ok, Yields,
}
use k210_os.Fat32.Sector.{Disk, read32, write32}
use k210_os.Fat32.{
  Volume, fat32_feoc, read_fat, write_fat, alloc_clus, fat_sec_of_clus, fat_offset_of_clus,
}
use k210_os.Fat32.Table.{IsMounted, table, read_fat-write_fat}
use k210_os.Fat32.Alloc.{Allocated, alloc_clus-Allocated}
use k210_os.Fat32.Entry.{Dirent, reloc_clus, eread, etrunc}
use k210_os.Fat32.Entry.Chain.{nth, Reaches, at_cluster, reloc_clus-at_cluster}
use k210_os.Fat32.Entry.Content.{IsFile, HasRead, eread-HasRead}
use k210_os.Fat32.Entry.Truncate.{mem, Chain, end, link, Truncated, etrunc-Truncated}

abbrev volume : Volume
volume = record {
  first_data_sec = 2;
  data_sec_cnt = 6;
  data_clus_cnt = 6;
  byts_per_clus = 512;
  byts_per_sec = 512;
  sec_per_clus = 1;
  rsvd_sec_cnt = 1;
  fat_cnt = 1;
  hidd_sec = 0;
  tot_sec = 8;
  fat_sz = 1;
  root_clus = 2;
}

-- the entries of the table from 0 on: two reserved ones, then cluster 2 leading to 3, the last one
abbrev disk : Disk
disk =
    write32
      (write32
        (write32 (write32 (λ s o. if s == 1 then 0 else s + o) 1 0 0x0FFFFFF8) 1 4 0x0FFFFFFF) 1 8
        3)
      1 12 fat32_feoc

abbrev file : Dirent
file = record {
  attribute = 32;
  first_clus = 2;
  file_size = 600;
  cur_clus = 2;
  clus_cnt = 0;
  dirty = false;
}

volume-IsMounted : IsMounted volume
volume-IsMounted = record {
  sector = refl;
  some_sectors = omega arith;
  bytes = refl;
  clusters = omega arith;
  covers = omega arith;
  before = omega arith;
  sectors = omega arith;
}

reserved_0 : table volume disk 0 ≡ 0x0FFFFFF8
unfolding read32 write32
reserved_0 = refl

reserved_1 : table volume disk 1 ≡ 0x0FFFFFFF
unfolding read32 write32
reserved_1 = refl

second : read_fat volume disk 2 ≡ 3
unfolding read_fat fat_sec_of_clus fat_offset_of_clus read32 write32
second = refl

last : read_fat volume disk 3 ≡ fat32_feoc
unfolding read_fat fat_sec_of_clus fat_offset_of_clus read32 write32
last = refl

file-IsFile : IsFile volume disk file
unfolding nth
file-IsFile = record {
  cursor = record { at = refl; word = omega arith };
  low = omega arith;
  chain = clusters;
  word = omega arith;
}
  where
    clusters : (j : ℕ) → j * 512 < 600 → (2 ≤ nth volume disk 2 j) × (nth volume disk 2 j ≤ 7)
    clusters zero h = (omega arith, omega arith)
    clusters (suc zero) h = (omega (arith, second), omega (arith, second))
    clusters (suc (suc j)) h = absurd (omega arith)

file-Chain : Chain volume disk 2 (2 ∷ 3 ∷ [])
unfolding mem
file-Chain =
    let tail : Chain volume disk 3 (3 ∷ []) =
      link (omega arith) (omega arith) refl (end (inr (omega (arith, last)))) in
    link (omega arith) (omega arith) refl (rw second tail)

read_fat-write_fat_example :
    ((write_fat volume disk 4 9).0 ≡ true)
    × (read_fat volume (write_fat volume disk 4 9).1 2
        ≡ (if 4 == 2 then 9 else read_fat volume disk 2))
read_fat-write_fat_example =
    read_fat-write_fat volume disk 4 2 9 volume-IsMounted (omega arith) (omega arith) (omega arith)

alloc_clus-Allocated_example : Allocated volume disk (alloc_clus volume disk)
alloc_clus-Allocated_example =
    alloc_clus-Allocated volume disk volume-IsMounted (λ z. absurd (omega (arith, reserved_0)))
      (λ z. absurd (omega (arith, reserved_1)))

reloc_clus-at_cluster_example :
    reloc_clus volume false file 520 disk ≡ ok (some 8, at_cluster volume disk file 1, disk)
unfolding nth
reloc_clus-at_cluster_example =
    reloc_clus-at_cluster volume disk false file 520 file-IsFile.cursor (omega arith) reaches
  where
    reaches : Reaches volume disk 2 1
    reaches zero h = omega arith
    reaches (suc zero) h = omega (arith, second)
    reaches (suc (suc j)) h = absurd (omega arith)

eread-HasRead_example :
    Yields
      (HasRead volume disk file 500 (min 300 (600 - 500)))
      (eread volume (λ a m. true) file 4096 500 300 disk)
eread-HasRead_example =
    eread-HasRead (λ a m. true) volume disk file 4096 500 300 volume-IsMounted (λ a m. refl)
      file-IsFile refl (omega arith) (omega arith)

etrunc-Truncated_example :
    Yields (Truncated volume disk file (2 ∷ 3 ∷ [])) (etrunc volume file disk)
etrunc-Truncated_example =
    etrunc-Truncated volume disk file (2 ∷ 3 ∷ []) volume-IsMounted file-Chain
