-- ===== src/Pid.antt =====
-- src/tk_pid.c: process identifiers, handed out from a counter and from a stack of returned ones.
pub mod Alloc
pub mod Dealloc
mod Tests
use k210_os.Prelude.{
  ℕ, zero, suc, ◌+◌, ◌-◌, ◌*◌, ◌%◌, ◌^◌, ◌<◌, ◌≤◌, ◌≡◌, ◌≢◌, Bool, true, false, List, ltb, ◌==◌,
  if◌then◌else◌, length, get_or, replicate, Outcome, ok, panic, ◌>>=◌, ◌>>◌, assert, load, store,
}

-- `struct PidAllocator`; the lock is held for the whole of each operation.
pub record PidAllocator : Type 0 where
  pub current : ℕ
  pub recycled_stack : List ℕ
  pub sp : ℕ

-- the length of `recycled_stack`
abbrev pub stack_len : ℕ
stack_len = 31

-- The allocator is a global, so the stack starts as zeros.
unfoldable pub pid_init : PidAllocator
pid_init = record { current = 1; recycled_stack = replicate stack_len 0; sp = 0 }

-- `current` is a `uint64_t`.
unfoldable pub pid_alloc : PidAllocator → Outcome (ℕ × PidAllocator)
pid_alloc a =
    if a.sp == 0
    then (let current' = (a.current + 1) % 2 ^ 64 in
        ok ((current' + 2 ^ 64 - 1) % 2 ^ 64, record a { current = current' }))
    else (do
      let sp' = a.sp - 1
      result ← load a.recycled_stack sp'
      ok (result, record a { sp = sp' }))

-- The loop of `pid_dealloc` with the rounds left: each round reads the slot `sp`, not the slot `i`.
unfoldable pub check_recycled : ℕ → PidAllocator → ℕ → Outcome (Unit {0})
check_recycled zero a pid = ok tt
check_recycled (suc rounds) a pid =
    let rest = check_recycled rounds a pid in
    (do seen ← load a.recycled_stack a.sp; if seen == pid then panic else rest)

-- `sp` is a `uint8_t`.
unfoldable pub pid_dealloc : ℕ → PidAllocator → Outcome PidAllocator
pid_dealloc pid a = do
  assert (ltb pid a.current)
  check_recycled a.sp a pid
  stack ← store a.recycled_stack a.sp pid
  ok (record a { recycled_stack = stack; sp = (a.sp + 1) % 2 ^ 8 })

-- The pid in slot `i`.
abbrev pub slot : PidAllocator → ℕ → ℕ
slot a i = get_or a.recycled_stack i 0

-- The allocator with the pids in use: those are below the counter, each returned one is below it,
-- not in use, and stands on the stack once.
pub record IsValid (live : ℕ → Bool) (a : PidAllocator) : Type 0 where
  pub size : length a.recycled_stack ≡ stack_len
  pub room : a.sp ≤ stack_len
  pub counted : a.current < 2 ^ 64 - 1
  pub live_below : (p : ℕ) → live p ≡ true → p < a.current
  pub returned_below : (i : ℕ) → i < a.sp → slot a i < a.current
  pub returned_free : (i : ℕ) → i < a.sp → live (slot a i) ≡ false
  pub returned_once : (i j : ℕ) → i < j → j < a.sp → slot a i ≢ slot a j

abbrev pub with_pid : (ℕ → Bool) → ℕ → ℕ → Bool
with_pid live p q = if q == p then true else live q

abbrev pub without_pid : (ℕ → Bool) → ℕ → ℕ → Bool
without_pid live p q = if q == p then false else live q
