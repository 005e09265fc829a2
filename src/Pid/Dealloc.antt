-- ===== src/Pid/Dealloc.antt =====
-- What `pid_dealloc` does: its scan looks at one stale slot.
use k210_os.Prelude.{
  ℕ, zero, suc, ◌+◌, ◌-◌, ◌%◌, ◌^◌, ◌<◌, ◌≤◌, ◌≡◌, ◌≢◌, refl, Bool, true, ◌==◌, arith, length, set,
  if◌then◌else◌, get_or-set, length-set, Outcome, ok, ◌>>=◌, suc, panic, Yields, load-ok, store-ok,
  lt→ltb, Bool-cases, inl, inr,
}
use k210_os.Pid.{
  PidAllocator, IsValid, pid_alloc, pid_dealloc, check_recycled, without_pid, slot, stack_len,
}

-- The whole loop comes to one comparison, with the slot above the top, and to none at `sp = 0`.
check_recycled-ok :
    (n : ℕ) (a : PidAllocator) (pid : ℕ)
    → a.sp < length a.recycled_stack
    → slot a a.sp ≢ pid
    → check_recycled n a pid ≡ ok tt
unfolding check_recycled
check_recycled-ok zero a pid h ne = refl
check_recycled-ok (suc n) a pid h ne =
    rw (load-ok a.recycled_stack a.sp 0 h) (ground (arith, check_recycled-ok n a pid))

check_recycled-panic :
    (n : ℕ) (a : PidAllocator) (pid : ℕ)
    → a.sp < length a.recycled_stack
    → slot a a.sp ≡ pid
    → 0 < n
    → check_recycled n a pid ≡ panic
unfolding check_recycled
check_recycled-panic zero a pid h e l = elim l [ ]
check_recycled-panic (suc n) a pid h e l = rw (load-ok a.recycled_stack a.sp 0 h) (ground arith)

-- The allocator after `pid` has been put on its stack.
abbrev pub returned : ℕ → PidAllocator → PidAllocator
returned pid a = record a { recycled_stack = set a.recycled_stack a.sp pid; sp = a.sp + 1 }

pub pid_dealloc-ok :
    (pid : ℕ) (a : PidAllocator)
    → pid < a.current
    → a.sp < stack_len
    → length a.recycled_stack ≡ stack_len
    → slot a a.sp ≢ pid
    → pid_dealloc pid a ≡ ok (returned pid a)
unfolding pid_dealloc
pid_dealloc-ok pid a below room size ne =
    let step : (a.sp + 1) % 2 ^ 8 ≡ a.sp + 1 = omega arith in
    rw (
      lt→ltb pid a.current below,
      check_recycled-ok a.sp a pid (omega arith) ne,
      store-ok a.recycled_stack a.sp pid (omega arith),
      step,
    )

-- Returning a pid in use, with room on the stack and another number in the slot above its top,
-- succeeds and leaves the allocator valid with that pid no longer in use.
pub pid_dealloc-IsValid :
    (live : ℕ → Bool) (pid : ℕ) (a : PidAllocator)
    → IsValid live a
    → live pid ≡ true
    → a.sp < stack_len
    → slot a a.sp ≢ pid
    → Yields (IsValid (without_pid live pid)) (pid_dealloc pid a)
pid_dealloc-IsValid live pid a v used room ne =
    rw (pid_dealloc-ok pid a (v.live_below pid used) room v.size ne) (record {
      size = omega (arith, v.size, length-set a.recycled_stack a.sp pid);
      room = omega arith;
      counted = v.counted;
      live_below = λ p l. ground (arith, v.live_below p);
      returned_below = λ i l. ground (arith, at i, v.live_below pid used, v.returned_below i);
      returned_free = λ i l. ground (arith, at i, v.returned_free i);
      returned_once = λ i j l m. ground (arith, at i, at j, v.returned_free i, v.returned_once i j);
    })
  where
    at : (i : ℕ) → slot (returned pid a) i ≡ (if a.sp == i then pid else slot a i)
    at i = get_or-set a.recycled_stack a.sp i pid 0 (omega (arith, v.size))

pid_alloc-pop :
    (a : PidAllocator)
    → 0 < a.sp
    → a.sp ≤ length a.recycled_stack
    → pid_alloc a ≡ ok (slot a (a.sp - 1), record a { sp = a.sp - 1 })
unfolding pid_alloc
pid_alloc-pop a h room = elim (Bool-cases (a.sp == 0)) [
  | inl e ↦ absurd (ground arith)
  | inr e ↦ rw (e, load-ok a.recycled_stack (a.sp - 1) 0 (omega arith))
]

-- A pid taken from a stack of two or more cannot be given back at once: the slot that it came from
-- still holds it, and `pid_dealloc` panics.
pub pid_dealloc-pid_alloc :
    (a : PidAllocator)
    → 1 < a.sp
    → a.sp ≤ length a.recycled_stack
    → slot a (a.sp - 1) < a.current
    → Yields (λ r. pid_dealloc r.0 r.1 ≡ panic) (pid_alloc a)
unfolding pid_alloc pid_dealloc
pid_dealloc-pid_alloc a two room below = elim (Bool-cases (a.sp == 0)) [
  | inl e ↦ absurd (ground arith)
  | inr e ↦
      rw (e, load-ok a.recycled_stack (a.sp - 1) 0 (omega arith))
        (rw (
          lt→ltb _ _ below,
          check_recycled-panic (a.sp - 1) (record a { sp = a.sp - 1 }) (slot a (a.sp - 1))
              (omega arith) refl (omega arith),
        ))
]

-- A client that returns `pid` twice and then asks for two pids.
abbrev pub double_return : ℕ → PidAllocator → Outcome (ℕ × ℕ)
double_return pid a = do
  b ← pid_dealloc pid a
  c ← pid_dealloc pid b
  (p, d) ← pid_alloc c
  (q, e) ← pid_alloc d
  ok (p, q)

-- Returning one pid twice is accepted, unless one of the two slots above the top happens to hold
-- it, and the next two calls of `pid_alloc` both hand out that pid.
pub pid_alloc-pid_dealloc_twice :
    (pid : ℕ) (a : PidAllocator)
    → pid < a.current
    → a.sp + 1 < stack_len
    → length a.recycled_stack ≡ stack_len
    → slot a a.sp ≢ pid
    → slot a (a.sp + 1) ≢ pid
    → double_return pid a ≡ ok (pid, pid)
pid_alloc-pid_dealloc_twice pid a below room size ne ne' =
    let top : slot (returned pid (returned pid a)) (a.sp + 1) ≡ pid =
      ground (arith, at' (a.sp + 1)) in
    let next : slot (returned pid (returned pid a)) a.sp ≡ pid =
      ground (arith, at' a.sp, at a.sp) in
    let first : a.sp + 1 + 1 - 1 ≡ a.sp + 1 = omega arith in
    let second : a.sp + 1 - 1 ≡ a.sp = omega arith in
    rw (
      pid_dealloc-ok pid a below (omega arith) size ne,
      pid_dealloc-ok pid (returned pid a) below (omega arith) (omega (arith, once, size)) kept,
      pid_alloc-pop (returned pid (returned pid a)) (omega arith)
          (omega (arith, once, twice, size)),
      first,
      pid_alloc-pop (record (returned pid (returned pid a)) { sp = a.sp + 1 }) (omega arith)
          (omega (arith, once, twice, size)),
      top,
      second,
      next,
    )
  where
    once : length (set a.recycled_stack a.sp pid) ≡ length a.recycled_stack
    once = length-set a.recycled_stack a.sp pid

    twice :
        length (set (set a.recycled_stack a.sp pid) (a.sp + 1) pid)
        ≡ length (set a.recycled_stack a.sp pid)
    twice = length-set (set a.recycled_stack a.sp pid) (a.sp + 1) pid

    at : (i : ℕ) → slot (returned pid a) i ≡ (if a.sp == i then pid else slot a i)
    at i = get_or-set a.recycled_stack a.sp i pid 0 (omega (arith, size))

    kept : slot (returned pid a) (a.sp + 1) ≢ pid
    kept e = ne' (ground (arith, at (a.sp + 1)))

    at' :
        (i : ℕ)
        → slot (returned pid (returned pid a)) i
          ≡ (if a.sp + 1 == i then pid else slot (returned pid a) i)
    at' i =
        get_or-set (returned pid a).recycled_stack (a.sp + 1) i pid 0 (omega (arith, once, size))
