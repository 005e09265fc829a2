-- ===== src/Buffer/Tests.antt =====
-- A cache of two buffers in which one sector has been read.
use k210_os.Prelude.{ℕ, zero, suc, ◌+◌, ◌≡◌, refl, true, false, some, [], ◌∷◌, arith, ◌==◌, Yields}
use k210_os.Semaphore.{sem_hold}
use k210_os.Buffer.{Sectors, Buf, Cache, bread, bwrite}
use k210_os.Buffer.Coherence.{IsCoherent, BufRead, bread-BufRead, Written, bwrite-Written, place}

abbrev card : Sectors
card = λ s o. s + o

-- the second buffer holds sector 9, locked by task 3
abbrev bufs : ℕ → Buf
bufs zero = record {
  valid = false;
  dev = 0;
  sectorno = 0;
  refcnt = 0;
  lock = record { value = 1; waiters = []; pid = 0 };
  bytes = λ o. 0;
}
bufs (suc i) = record {
  valid = i == 0;
  dev = 0;
  sectorno = 9;
  refcnt = 1;
  lock = record { value = 0; waiters = []; pid = 3 };
  bytes = λ o. 109 + o;
}

abbrev cache : Cache
cache = record { bufs = bufs; order = 1 ∷ 0 ∷ [] }

cache-IsCoherent : IsCoherent card 100 cache
cache-IsCoherent zero v o = cc
cache-IsCoherent (suc i) v o = refl

bread-BufRead_example : BufRead card 100 cache 0 7 (bread (some 3) card 100 cache 0 7)
bread-BufRead_example = bread-BufRead (some 3) card 100 cache 0 7 cache-IsCoherent

bwrite-Written_example : Yields (Written card 100 cache 1) (bwrite (some 3) card 100 cache 1)
unfolding sem_hold
bwrite-Written_example =
    bwrite-Written (some 3) card 100 cache 1 (λ j ne. cache-IsCoherent j) alone refl
  where
    alone : (j : ℕ) → (bufs j).valid ≡ true → place 100 (bufs j) ≡ 109 → j ≡ 1
    alone zero v e = cc
    alone (suc zero) v e = refl
    alone (suc (suc i)) v e = ground arith
