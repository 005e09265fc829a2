-- ===== src/Semaphore/Tests.antt =====
-- The theorems about the semaphore at concrete semaphores.
use k210_os.Prelude.{◌-◌, ◌^◌, ◌≡◌, true, some, []}
use k210_os.Semaphore.{Semaphore, acquired, sem_init, sem_wait, sem_hold}
use k210_os.Semaphore.Exclusion.{sem_wait-acquired, sem_wait_twice}

abbrev blank : Semaphore
blank = record { value = 0; waiters = []; pid = 0 }

abbrev open_lock : Semaphore
open_lock = record { value = 1; waiters = []; pid = 0 }

sem_wait-acquired_example :
    sem_wait (some 3) blank ≡ acquired (record blank { value = 2 ^ 32 - 1; pid = 3 })
sem_wait-acquired_example = sem_wait-acquired (some 3) blank

sem_wait_twice_example :
    (t : Semaphore) × (sem_wait (some 3) (sem_init blank 1) ≡ acquired t)
    × (sem_hold (some 3) t ≡ true)
    × ((u : Semaphore) × (sem_wait (some 4) t ≡ acquired u) × (u.value ≡ 2 ^ 32 - 1))
sem_wait_twice_example = sem_wait_twice 3 4 blank
