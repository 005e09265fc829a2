-- ===== src/Semaphore/Exclusion.antt =====
-- Whether the semaphore works as a lock.
use k210_os.Prelude.{
  ℕ, ◌+◌, ◌-◌, ◌%◌, ◌^◌, ◌≡◌, refl, true, false, Option, none, some, [], arith, ◌==◌,
}
use k210_os.Semaphore.{Semaphore, acquired, sem_init, sem_wait, sem_signal, sem_hold, set_pid}

-- sem_wait lets every caller through at once, whatever the value: it never sleeps, and takes one
-- from the value modulo 2^32.
pub sem_wait-acquired :
    (task : Option ℕ) (s : Semaphore)
    → sem_wait task s
      ≡ acquired (set_pid task (record s { value = (s.value + 2 ^ 32 - 1) % 2 ^ 32 }))
unfolding sem_wait
sem_wait-acquired task s = ground arith

-- Two tasks that wait for a semaphore of value 1 with no signal between are both let through.
pub sem_wait_twice :
    (p q : ℕ) (s : Semaphore)
    → (t : Semaphore) × (sem_wait (some p) (sem_init s 1) ≡ acquired t)
      × (sem_hold (some p) t ≡ true)
      × ((u : Semaphore) × (sem_wait (some q) t ≡ acquired u) × (u.value ≡ 2 ^ 32 - 1))
unfolding sem_wait sem_init sem_hold
sem_wait_twice p q s = (
  record { value = 0; waiters = []; pid = p },
  refl,
  ground arith,
  (record { value = 2 ^ 32 - 1; waiters = []; pid = q }, refl, refl),
)

-- After a second task has come in, sem_hold answers no to every task, the two inside included.
pub sem_hold-sem_wait :
    (task other : Option ℕ) (s t : Semaphore)
    → s.value ≡ 0
    → sem_wait task s ≡ acquired t
    → sem_hold other t ≡ false
unfolding sem_hold
sem_hold-sem_wait task none s t e w = ground (arith, sem_wait-acquired task s)
sem_hold-sem_wait task (some p) s t e w = ground (arith, sem_wait-acquired task s)

-- Used by one task at a time the semaphore is a lock: after sem_wait the caller holds it and no
-- other task does, and sem_signal gives back the value 1, with no holder and nobody woken.
pub sem_signal-sem_wait :
    (p : ℕ) (s t : Semaphore)
    → s.value ≡ 1
    → sem_wait (some p) s ≡ acquired t
    → ((q : ℕ) → sem_hold (some q) t ≡ (q == p))
      × ((sem_signal t).0 ≡ none)
      × ((sem_signal t).1 ≡ record { value = 1; waiters = s.waiters; pid = 0 })
      × ((q : ℕ) → sem_hold (some q) (sem_signal t).1 ≡ false)
unfolding sem_wait sem_signal sem_hold
sem_signal-sem_wait p s t e w = (λ q. ground arith, ground arith, ground arith, λ q. ground arith)
