-- ===== src/FileTable/Tests.antt =====
-- The first three files stand for the console.
use k210_os.Prelude.{
  length-replicate, map, some, ℕ, zero, suc, ◌+◌, ◌-◌, ◌*◌, ◌≡◌, ◌<◌, ◌≤◌, refl, min, List, [], ◌∷◌,
  replicate, arith, ok, true, false, Yields, ◌==◌, if◌then◌else◌,
}
use k210_os.Fat32.Sector.{read32, write32}
use k210_os.Fat32.{Volume, fat32_feoc, read_fat, fat_sec_of_clus, fat_offset_of_clus}
use k210_os.Fat32.Table.{IsMounted}
use k210_os.Fat32.Entry.Chain.{nth}
use k210_os.Pipe.{Pipe, pipe_size, pipe_init}
use k210_os.Pipe.Ring.{IsValid, contents, window}
use k210_os.FileTable.Access.Through.{Passed, pass_through, pass_through-Passed}
use k210_os.FileTable.Access.{Objects, source_bytes}
use k210_os.FileTable.Access.Pieces.{IsOpen, InPieces, fileread_twice, fileread_twice-InPieces}
use k210_os.FileTable.{File, zero_file, console_file, fd_pipe, fd_entry, nothing}
use k210_os.FileTable.Counting.{dup_close, dup_close-eq}

abbrev files : List File
files = console_file ∷ zero_file ∷ []

dup_close-eq_example : dup_close 3 files 0 ≡ ok (replicate 3 nothing, files)
dup_close-eq_example = dup_close-eq 3 files 0 (omega arith) (omega arith) (omega arith)

-- The file of 600 bytes on a small volume, open at an offset of 500.
abbrev volume : Volume
volume = record {
  first_data_sec = 2;
  data_sec_cnt = 6;
  data_clus_cnt = 6;
  byts_per_clus = 512;
  byts_per_sec = 512;
  sec_per_clus = 1;
  rsvd_sec_cnt = 1;
  fat_cnt = 1;
  hidd_sec = 0;
  tot_sec = 8;
  fat_sz = 1;
  root_clus = 2;
}

abbrev objects : Objects ℕ
objects = record {
  pipes = λ a. pipe_init [];
  entries = λ a. record {
    attribute = 32;
    first_clus = 2;
    file_size = 600;
    cur_clus = 2;
    clus_cnt = 0;
    dirty = false;
  };
  disk = write32 (write32 (λ s o. if s == 1 then 0 else s + o) 1 8 3) 1 12 fat32_feoc;
  devices = 0;
}

abbrev open_file : File
open_file = record zero_file { type = fd_entry; ref = 1; readable = true; ep = 5; off = 500 }

volume-IsMounted : IsMounted volume
volume-IsMounted = record {
  sector = refl;
  some_sectors = omega arith;
  bytes = refl;
  clusters = omega arith;
  covers = omega arith;
  before = omega arith;
  sectors = omega arith;
}

second : read_fat volume objects.disk 2 ≡ 3
unfolding read_fat fat_sec_of_clus fat_offset_of_clus read32 write32
second = refl

open_file-IsOpen : IsOpen volume open_file objects
unfolding nth
open_file-IsOpen = record {
  type = refl;
  readable = refl;
  file = record {
    cursor = record { at = refl; word = omega arith };
    low = omega arith;
    chain = clusters;
    word = omega arith;
  };
  plain = refl;
  inside = omega arith;
}
  where
    clusters :
        (j : ℕ)
        → j * 512 < 600
        → (2 ≤ nth volume objects.disk 2 j) × (nth volume objects.disk 2 j ≤ 7)
    clusters zero h = (omega arith, omega arith)
    clusters (suc zero) h = (omega (arith, second), omega (arith, second))
    clusters (suc (suc j)) h = absurd (omega arith)

fileread_twice-InPieces_example :
    Yields
      (InPieces volume open_file objects (min (30 + 300) (600 - 500)))
      (fileread_twice volume [] 3 false (λ a k. true) open_file 4096 30 8192 300 objects)
fileread_twice-InPieces_example =
    fileread_twice-InPieces volume [] 3 false (λ a k. true) open_file 4096 30 8192 300 objects
      volume-IsMounted (λ a k. refl) open_file-IsOpen (omega arith)

-- Two open ends of an empty pipe whose counters are about to pass its size.
abbrev pipe : Pipe
pipe = record (pipe_init (replicate pipe_size 0)) { nread = 511; nwrite = 511 }

abbrev piped : Objects ℕ
piped = record objects { pipes = λ a. pipe }

abbrev write_end : File
write_end = record zero_file { type = fd_pipe; ref = 1; writable = true; pipe = 8 }

abbrev read_end : File
read_end = record zero_file { type = fd_pipe; ref = 1; readable = true; pipe = 8 }

pipe-IsValid : IsValid pipe
unfolding pipe_init
pipe-IsValid = record {
  size = length-replicate {A = ℕ} pipe_size 0;
  read_word = omega arith;
  write_word = omega arith;
  filled = omega arith;
}

pipe-empty : contents pipe ≡ []
unfolding window pipe_init
pipe-empty = refl

two_bytes : source_bytes (λ a n. some (a ∷ [])) 70 2 ≡ map some (70 ∷ 71 ∷ [])
unfolding source_bytes
two_bytes = refl

pass_through-Passed_example :
    Yields
      (Passed read_end (70 ∷ 71 ∷ []))
      (pass_through volume [] 3 false (λ a n. some (a ∷ [])) write_end read_end 70 2 4096 9 piped)
pass_through-Passed_example =
    pass_through-Passed volume [] 3 false (λ a n. some (a ∷ [])) write_end read_end 70 4096 9
      (70 ∷ 71 ∷ []) piped
      (record { writes = (refl, refl); reads = (refl, refl); same_pipe = refl }) two_bytes
      pipe-IsValid pipe-empty (λ e. cc) (omega arith) (omega arith)
