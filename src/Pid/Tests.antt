-- ===== src/Pid/Tests.antt =====
-- Runs of the allocator, and the theorems about it at concrete allocators.
use k210_os.Prelude.{
  ℕ, zero, suc, ◌<◌, ◌≡◌, ◌≢◌, refl, Bool, false, ◌||◌, ◌∷◌, arith, ◌==◌, replicate, ok, panic,
  load, Yields,
}
use k210_os.Pid.{PidAllocator, IsValid, pid_init, pid_alloc, pid_dealloc, with_pid, slot}
use k210_os.Pid.Alloc.{pid_alloc-IsFresh}
use k210_os.Pid.Dealloc.{pid_dealloc-pid_alloc, pid_alloc-pid_dealloc_twice, double_return}

-- Pids 1 and 4 are in use, and 2 and 3 have come back.
abbrev two_back : PidAllocator
two_back = record { current = 5; recycled_stack = 2 ∷ 3 ∷ replicate 29 0; sp = 2 }

abbrev two_live : ℕ → Bool
two_live p = p == 1 || p == 4

two_back-IsValid : IsValid two_live two_back
two_back-IsValid = record {
  size = refl;
  room = omega arith;
  counted = omega arith;
  live_below = λ p h. ground arith;
  returned_below = λ i h. below i h;
  returned_free = λ i h. free i h;
  returned_once = λ i j h k. once i j h k;
}
  where
    below : (i : ℕ) → i < 2 → slot two_back i < 5
    below zero h = omega arith
    below (suc zero) h = omega arith
    below (suc (suc i)) h = absurd (omega arith)

    free : (i : ℕ) → i < 2 → two_live (slot two_back i) ≡ false
    free zero h = refl
    free (suc zero) h = refl
    free (suc (suc i)) h = absurd (omega arith)

    once : (i j : ℕ) → i < j → j < 2 → slot two_back i ≢ slot two_back j
    once zero (suc zero) h k = omega arith
    once zero zero h k = absurd (omega arith)
    once (suc i) (suc zero) h k = absurd (omega arith)
    once (suc i) zero h k = absurd (omega arith)
    once i (suc (suc j)) h k = absurd (omega arith)

pid_alloc-IsFresh_example :
    Yields (λ r. (two_live r.0 ≡ false) × IsValid (with_pid two_live r.0) r.1) (pid_alloc two_back)
pid_alloc-IsFresh_example = pid_alloc-IsFresh two_live two_back two_back-IsValid (omega arith)

pid_dealloc-pid_alloc_example : Yields (λ r. pid_dealloc r.0 r.1 ≡ panic) (pid_alloc two_back)
pid_dealloc-pid_alloc_example =
    pid_dealloc-pid_alloc two_back (omega arith) (omega arith) (omega arith)

pid_alloc-pid_dealloc_twice_example : double_return 4 two_back ≡ ok (4, 4)
pid_alloc-pid_dealloc_twice_example =
    pid_alloc-pid_dealloc_twice 4 two_back (omega arith) (omega arith) refl (omega arith)
      (omega arith)

first_pid : pid_alloc pid_init ≡ ok (1, record pid_init { current = 2 })
unfolding pid_alloc pid_init load
first_pid = refl
