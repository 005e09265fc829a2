-- ===== src/Fat32/Directory/Tests.antt =====
-- The name "ab.c" through the routines on names and directories.
use k210_os.Prelude.{
  ◌*◌, ◌<◌, ◌≤◌, zero, suc, ℕ, ◌≡◌, refl, true, false, none, some, List, [], ◌∷◌, arith, ◌==◌,
  if◌then◌else◌, length, ok, Yields,
}
use k210_os.Strings.{Bytes}
use k210_os.Fat32.Sector.{Disk}
use k210_os.Fat32.{Volume}
use k210_os.Fat32.Entry.{Dirent}
use k210_os.Fat32.Name.{
  has_char, formatname, skip_head, is_legal, cut_tail, skipelem, generate_shortname, shorten,
  shorten_char, last_dot, short_char, char_short_name, cal_checksum, checksum_from,
}
use k210_os.Fat32.Name.Path.{more, skipelem-elem}
use k210_os.Fat32.Name.Short.{all_short, generate_shortname-Short}
use k210_os.Fat32.Directory.{no_more, Scanning}
use k210_os.Fat32.Directory.Entries.{string_at}
use k210_os.Fat32.Directory.RoundTrip.{Name}
use k210_os.Fat32.Directory.ReadBack.{IsEntry}
use k210_os.Fat32.Directory.OnDisk.{HasRoom}
use k210_os.Fat32.Directory.Writing.{AllBytes}
use k210_os.Fat32.Directory.Stored.{ReadBack, make_next, make_next-ReadBack}
use k210_os.Fat32.Table.{IsMounted}
use k210_os.Fat32.Entry.Chain.{nth}
use k210_os.Fat32.Directory.Lookup.{search, IfOk, EndsAt, search-EndsAt}

abbrev ab_c : List ℕ
ab_c = 97 ∷ 98 ∷ 46 ∷ 99 ∷ []

abbrev ab_c_short : List ℕ
ab_c_short = 65 ∷ 66 ∷ 32 ∷ 32 ∷ 32 ∷ 32 ∷ 32 ∷ 32 ∷ 67 ∷ 32 ∷ 32 ∷ []

formatted : formatname (32 ∷ 46 ∷ 97 ∷ 98 ∷ 46 ∷ 99 ∷ 32 ∷ []) ≡ some ab_c
unfolding formatname skip_head is_legal cut_tail has_char
formatted = refl

-- "//a/b"
skipelem-elem_example : skipelem (47 ∷ 47 ∷ 97 ∷ 47 ∷ 98 ∷ []) ≡ some (97 ∷ [], 98 ∷ [])
unfolding has_char
skipelem-elem_example =
    skipelem-elem 2 97 [] (47 ∷ 98 ∷ []) (98 ∷ []) refl (more 0 98 [] (λ e. ground arith))

shortened : generate_shortname ab_c ≡ ok ab_c_short
unfolding generate_shortname shorten shorten_char last_dot short_char has_char
shortened = refl

generate_shortname-Short_example :
    Yields
      (λ short. (length short ≡ char_short_name) × (all_short short ≡ true))
      (generate_shortname ab_c)
generate_shortname-Short_example = generate_shortname-Short ab_c

checksum_ab_c : cal_checksum ab_c_short ≡ 90
unfolding cal_checksum checksum_from
checksum_ab_c = refl

-- the memory with the name at 0
abbrev memory : Bytes
memory k =
    if k == 0 then 97 else if k == 1 then 98 else if k == 2 then 46 else if k == 3 then 99 else 0

abbrev entry : Dirent
entry = record {
  attribute = 32;
  first_clus = 70000;
  file_size = 600;
  cur_clus = 70000;
  clus_cnt = 0;
  dirty = false;
}

abbrev directory : Dirent
directory = record {
  attribute = 16;
  first_clus = 2;
  file_size = 0;
  cur_clus = 2;
  clus_cnt = 0;
  dirty = false;
}

-- the state of enext that has cleared the name at 100
abbrev cleared : Scanning
cleared = record {
  cnt = 0;
  counts = true;
  so_far = record { type = no_more; count = 0; memory = λ k. 0; ep = directory; dp = directory };
}

memory-Name : Name memory 0 4
memory-Name = record { bytes = λ j. ground arith; no_end = λ k lt. ground arith; end = refl }

ab_c-IsEntry : IsEntry ab_c_short entry
ab_c-IsEntry = record {
  not_end = λ e. ground arith;
  not_empty = λ e. ground arith;
  not_long = λ e. ground arith;
  attribute_fits = omega arith;
  clus_fits = omega arith;
  size_fits = omega arith;
}

ab_c_bytes : AllBytes ab_c_short
ab_c_bytes = (
  omega arith,
  (
    omega arith,
    (
      omega arith,
      (
        omega arith,
        (
          omega arith,
          (
            omega arith,
            (omega arith, (omega arith, (omega arith, (omega arith, (omega arith, tt))))),
          ),
        ),
      ),
    ),
  ),
)

abbrev volume : Volume
volume = record {
  first_data_sec = 2;
  data_sec_cnt = 6;
  data_clus_cnt = 6;
  byts_per_clus = 512;
  byts_per_sec = 512;
  sec_per_clus = 1;
  rsvd_sec_cnt = 1;
  fat_cnt = 1;
  hidd_sec = 0;
  tot_sec = 8;
  fat_sz = 1;
  root_clus = 2;
}

abbrev zero_disk : Disk
zero_disk = λ sec i. 0

search-EndsAt_example :
    IfOk volume 4 0 100 zero_disk
      (EndsAt volume 4 0 100 zero_disk)
      (search volume 4 0 100 zero_disk 8 2 0 none cleared.so_far)
    × ((entcnt' : ℕ)
        → search volume 4 0 100 zero_disk 8 2 0 none cleared.so_far
          ≡ search volume 4 0 100 zero_disk 8 entcnt' 0 none cleared.so_far)
search-EndsAt_example = search-EndsAt volume 4 0 100 zero_disk 8 2 0 cleared.so_far

volume-IsMounted : IsMounted volume
volume-IsMounted = record {
  sector = refl;
  some_sectors = omega arith;
  bytes = refl;
  clusters = omega arith;
  covers = omega arith;
  before = omega arith;
  sectors = omega arith;
}

directory-HasRoom : HasRoom volume zero_disk directory 512
unfolding nth
directory-HasRoom = record {
  cursor = record { at = refl; word = omega arith };
  word = omega arith;
  chain = first_only;
}
  where
    first_only :
        (j : ℕ) → j * 512 < 512 → (2 ≤ nth volume zero_disk 2 j) × (nth volume zero_disk 2 j ≤ 7)
    first_only zero h = (omega arith, omega arith)
    first_only (suc j) h = absurd (omega arith)

make_next-ReadBack_example :
    Yields
      (ReadBack memory 0 4 100 entry)
      (make_next volume 9 directory entry memory 0 64 directory 100 0 (λ k. 7) zero_disk)
unfolding generate_shortname shorten shorten_char last_dot short_char has_char string_at
make_next-ReadBack_example =
    make_next-ReadBack volume zero_disk directory entry directory memory (λ k. 7) 0 4 100 64 512 9 0
      ab_c_short volume-IsMounted directory-HasRoom (λ i j li lj e. omega arith) refl refl
      (omega arith) (omega arith) (omega arith) memory-Name (omega arith) (omega arith) shortened
      ab_c_bytes ab_c-IsEntry
