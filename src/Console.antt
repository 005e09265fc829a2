-- ===== src/Console.antt =====
-- src/console.c: the console of the kernel. What sbi_console_putchar is given is the output, a list
-- of characters, and the ring of the input is filled by no code of the kernel.
pub mod Line
mod Tests
pub mod Printing
use k210_os.Prelude.{
  ℕ, zero, suc, ◌+◌, ◌-◌, ◌*◌, ◌/◌, ◌%◌, ◌^◌, ◌<◌, ◌≤◌, ◌≡◌, ◌≢◌, ◌↔◌, ◌⊎◌, inl, inr, refl, sym, ap,
  ◌∙◌, min, max, Bool, true, false, not, ◌&&◌, ◌||◌, Option, none, some, List, [], ◌∷◌, ◌++◌, map,
  arith, ltb, leb, ◌==◌, if◌then◌else◌, lt→ltb, ltb→lt, ltb→le, leb→le, eq→==, ==→eq, Bool-cases,
  length, get_elem?, get_or, set, replicate, take, drop, length-append, length-set,
  length-replicate, get_elem?-eq-get_or, get_or-set, get_or-append, set-set, set-get_or, Outcome,
  ok, panic, fault, hang, ◌>>=◌, ◌>>◌, assert, from_option, load, store, load-ok, store-ok, Yields,
  Yields->>=, Yields-map, holds_below, holds_below→test,
}
use k210_os.Task.{Kernel, Lock, lock_at, sleep, is_zombie, release_at}

-- `cons`, less its lock, which is one of the kernel's, and `waitr`, one of its wait queues.
pub record Console : Type 0 where
  pub buf : List ℕ
  pub r : ℕ
  pub w : ℕ
  pub e : ℕ

-- INPUT_BUF
abbrev pub input_buf : ℕ
input_buf = 128

-- BACKSPACE
abbrev pub backspace : ℕ
backspace = 0x100

unfoldable pub consoleinit : Console → Console
consoleinit cons = record cons { r = 0; w = 0; e = 0 }

-- the characters that it puts out
unfoldable pub cons_putc : ℕ → List ℕ
cons_putc c = if c == backspace then 8 ∷ 32 ∷ 8 ∷ [] else c ∷ []

-- The string is the array from `str` on.
unfoldable pub cons_puts : List ℕ → Outcome (List ℕ)
cons_puts [] = fault
cons_puts (c ∷ str) =
    let rest : Outcome (List ℕ) = (cons_puts str >>= λ out. ok (cons_putc c ++ out)) in
    if c == 0 then ok [] else rest

-- `n` stands for `n - cnt`.
unfoldable pub cons_puts_n : ℕ → List ℕ → Outcome (List ℕ)
cons_puts_n n [] = fault
cons_puts_n zero (c ∷ str) = ok []
cons_puts_n (suc n) (c ∷ str) =
    let rest : Outcome (List ℕ) = (cons_puts_n n str >>= λ out. ok (cons_putc c ++ out)) in
    if c == 0 then ok [] else rest

-- consolewrite with what either_copyin gives for each byte, none for -1: the characters put out,
-- whose count is returned.
unfoldable pub consolewrite : List (Option ℕ) → List ℕ
consolewrite [] = []
consolewrite (byte ∷ rest) = elim byte [ none ↦ [] | some c ↦ c ∷ consolewrite rest ]

-- How consoleread ends: with the bytes for the caller, or asleep with those so far.
pub data ConsoleRead : Type 0 where
  has_read : List ℕ → Console → ConsoleRead
  asleep : List ℕ → Console → Kernel → ConsoleRead
  killed : Console → Kernel → ConsoleRead

-- one more byte before the others
unfoldable pub with_byte : ℕ → ConsoleRead → ConsoleRead
with_byte c (has_read bytes cons) = has_read (c ∷ bytes) cons
with_byte c (asleep bytes cons k) = asleep (c ∷ bytes) cons k
with_byte c (killed cons k) = killed cons k

-- The body of the wait for input, whose lock and queue are at these addresses.
unfoldable pub wait_input : ℕ → ℕ → Kernel → Console → Outcome ConsoleRead
wait_input lock waitr k cons =
    if is_zombie (k.tcb k.current).task_status
    then (release_at k lock >>= λ k'. ok (killed cons k'))
    else (sleep k waitr (lock_at lock) >>= λ k'. ok (asleep [] cons k'))

-- The loop of consoleread with `n` bytes left after `done` ones; `copyout` tells whether the byte
-- at an index reaches the caller.
unfoldable pub console_loop : ℕ → ℕ → Kernel → (ℕ → Bool) → ℕ → ℕ → Console → Outcome ConsoleRead
console_loop lock waitr k copyout done zero cons = ok (has_read [] cons)
console_loop lock waitr k copyout done (suc n) cons =
    let next : Console = record cons { r = (cons.r + 1) % 2 ^ 32 } in
    let rest : Outcome ConsoleRead = console_loop lock waitr k copyout (done + 1) n next in
    let take_byte : ℕ → Outcome ConsoleRead = λ c.
      if c == 4
      then ok (has_read [] (if ltb 0 done then cons else next))
      else if not (copyout done)
      then ok (has_read [] next)
      else if c == 10
      then ok (has_read (c ∷ []) next)
      else (rest >>= λ x. ok (with_byte c x)) in
    if cons.r == cons.w
    then wait_input lock waitr k cons
    else (load cons.buf (cons.r % input_buf) >>= take_byte)

unfoldable pub consoleread : ℕ → ℕ → Kernel → (ℕ → Bool) → ℕ → Console → Outcome ConsoleRead
consoleread lock waitr k copyout n cons = console_loop lock waitr k copyout 0 n cons
