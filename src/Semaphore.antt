-- ===== src/Semaphore.antt =====
-- src/sync_sem.c: the counting semaphore, which the buffer cache and the directory entries use as
-- a sleep lock. Its spinlock is held for the whole of each operation. `value` is a `uint`.
pub mod Exclusion
mod Tests
use k210_os.Prelude.{
  ℕ, zero, suc, ◌+◌, ◌-◌, ◌*◌, ◌/◌, ◌%◌, ◌^◌, ◌<◌, ◌≤◌, ◌≡◌, ◌≢◌, ◌↔◌, ◌⊎◌, inl, inr, refl, sym, ap,
  ◌∙◌, min, max, Bool, true, false, not, ◌&&◌, ◌||◌, Option, none, some, List, [], ◌∷◌, ◌++◌, map,
  arith, ltb, leb, ◌==◌, if◌then◌else◌, lt→ltb, ltb→lt, ltb→le, leb→le, eq→==, ==→eq, Bool-cases,
  length, get_elem?, get_or, set, replicate, take, drop, length-append, length-set,
  length-replicate, get_elem?-eq-get_or, get_or-set, get_or-append, set-set, set-get_or, Outcome,
  ok, panic, fault, hang, ◌>>=◌, ◌>>◌, assert, from_option, load, store, load-ok, store-ok, Yields,
  Yields->>=, Yields-map,
}

-- `struct semaphore` without its name and its spinlock
pub record Semaphore : Type 0 where
  pub value : ℕ
  pub waiters : List ℕ
  pub pid : ℕ

unfoldable pub sem_init : Semaphore → ℕ → Semaphore
sem_init s value = record s { value = value; waiters = [] }

-- How sem_wait leaves the caller: it has the semaphore, or it is asleep on `waiters`.
pub data Waited : Type 0 where
  acquired : Semaphore → Waited
  asleep : Semaphore → Waited

-- The caller is `mytask()`, or none before the first task runs.
abbrev pub set_pid : Option ℕ → Semaphore → Semaphore
set_pid none s = s
set_pid (some p) s = record s { pid = p }

abbrev pub enqueue : Option ℕ → Semaphore → Semaphore
enqueue none s = s
enqueue (some p) s = record s { waiters = s.waiters ++ p ∷ [] }

-- The `while` of sem_wait, up to the next sleep: `s->value < 0` compares unsigned numbers.
unfoldable pub wait_loop : Option ℕ → Semaphore → Waited
wait_loop task s = if ltb s.value 0 then asleep (enqueue task s) else acquired (set_pid task s)

unfoldable pub sem_wait : Option ℕ → Semaphore → Waited
unfolding wait_loop
sem_wait task s = wait_loop task (record s { value = (s.value + 2 ^ 32 - 1) % 2 ^ 32 })

-- wakeup_fromwq takes the first waiter off the queue.
abbrev pub wake_one : List ℕ → Option ℕ × List ℕ
wake_one [] = (none, [])
wake_one (p ∷ ps) = (some p, ps)

-- The task that it makes ready, if any, and the semaphore.
unfoldable pub sem_signal : Semaphore → Option ℕ × Semaphore
sem_signal s =
    let value' : ℕ = (s.value + 1) % 2 ^ 32 in
    let (woken, rest) = wake_one s.waiters in
    if leb value' 0
    then (woken, record { value = value'; waiters = rest; pid = 0 })
    else (none, record { value = value'; waiters = s.waiters; pid = 0 })

unfoldable pub sem_hold : Option ℕ → Semaphore → Bool
sem_hold none s = leb s.value 0
sem_hold (some p) s = leb s.value 0 && (p == s.pid)
