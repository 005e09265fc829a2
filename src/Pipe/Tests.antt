-- ===== src/Pipe/Tests.antt =====
-- A pipe with two bytes in it, and one with none.
use k210_os.Prelude.{
  ℕ, refl, ◌∙◌, true, false, some, [], ◌∷◌, arith, set, replicate, length-set, length-replicate,
  Yields, ◌≡◌,
}
use k210_os.Pipe.{Pipe, pipe_size, pipe_write, pipe_read}
use k210_os.Pipe.Ring.{IsValid, contents, window}
use k210_os.Pipe.Write.{Wrote, pipe_write-Wrote}
use k210_os.Pipe.Read.{WasRead, pipe_read-WasRead}

abbrev nothing : Pipe
nothing = record {
  bytes = replicate pipe_size 0;
  nread = 511;
  nwrite = 511;
  readopen = true;
  writeopen = true;
  rwaiter = [];
  wwaiter = [];
}

nothing-IsValid : IsValid nothing
nothing-IsValid = record {
  size = length-replicate {A = ℕ} pipe_size 0;
  read_word = omega arith;
  write_word = omega arith;
  filled = omega arith;
}

abbrev two_bytes : Pipe
two_bytes = record {
  bytes = set (set (replicate pipe_size 0) 511 7) 0 8;
  nread = 511;
  nwrite = 513;
  readopen = true;
  writeopen = true;
  rwaiter = [];
  wwaiter = [];
}

two_bytes-IsValid : IsValid two_bytes
two_bytes-IsValid = record {
  size =
      length-set {A = ℕ} (set (replicate pipe_size 0) 511 7) 0 8
      ∙ (length-set {A = ℕ} (replicate pipe_size 0) 511 7 ∙ length-replicate {A = ℕ} pipe_size 0);
  read_word = omega arith;
  write_word = omega arith;
  filled = omega arith;
}

pipe_write-Wrote_example :
    Wrote 3 false nothing (7 ∷ 8 ∷ []) 0 (pipe_write 3 false nothing (some 7 ∷ some 8 ∷ []))
pipe_write-Wrote_example = pipe_write-Wrote 3 false nothing (7 ∷ 8 ∷ []) nothing-IsValid

pipe_read-WasRead_example :
    Yields (WasRead 3 false two_bytes 5) (pipe_read 3 false (λ j. true) two_bytes 5)
pipe_read-WasRead_example =
    pipe_read-WasRead 3 false (λ j. true) two_bytes 5 (λ j. refl) two_bytes-IsValid

nothing-empty : contents nothing ≡ []
unfolding window
nothing-empty = refl
