-- ===== src/Pid/Alloc.antt =====
-- What `pid_alloc` promises.
use k210_os.Prelude.{
  ℕ, ◌+◌, ◌-◌, ◌%◌, ◌^◌, ◌<◌, ◌≤◌, ◌≡◌, Bool, false, ◌==◌, arith, Yields, load-ok, Bool-cases, inl,
  inr,
}
use k210_os.Pid.{PidAllocator, IsValid, pid_alloc, with_pid, slot}

not_live :
    (live : ℕ → Bool) (a : PidAllocator) (p : ℕ) → IsValid live a → a.current ≤ p → live p ≡ false
not_live live a p v h = elim (Bool-cases (live p)) [
  | inl e ↦ absurd (omega (arith, v.live_below p e))
  | inr e ↦ e
]

counter-IsValid :
    (live : ℕ → Bool) (a : PidAllocator)
    → IsValid live a
    → a.current < 2 ^ 64 - 2
    → (live a.current ≡ false)
      × IsValid (with_pid live a.current) (record a { current = a.current + 1 })
counter-IsValid live a v h = (
  not_live live a a.current v (omega arith),
  record {
    size = v.size;
    room = v.room;
    counted = omega arith;
    live_below = λ p l. ground (arith, v.live_below p);
    returned_below = λ i l. ground (arith, v.returned_below i l);
    returned_free = λ i l. ground (arith, v.returned_below i l, v.returned_free i l);
    returned_once = v.returned_once;
  },
)

popped-IsValid :
    (live : ℕ → Bool) (a : PidAllocator)
    → IsValid live a
    → 0 < a.sp
    → (live (slot a (a.sp - 1)) ≡ false)
      × IsValid (with_pid live (slot a (a.sp - 1))) (record a { sp = a.sp - 1 })
popped-IsValid live a v h =
    let last : a.sp - 1 < a.sp = omega arith in
    (
      v.returned_free (a.sp - 1) last,
      record {
        size = v.size;
        room = omega (arith, v.room);
        counted = v.counted;
        live_below = λ p l. ground (arith, v.live_below p, v.returned_below (a.sp - 1) last);
        returned_below = λ i l. v.returned_below i (omega arith);
        returned_free = λ i l.
            ground (arith, v.returned_free i (omega arith), v.returned_once i (a.sp - 1) l last);
        returned_once = λ i j l m. v.returned_once i j l (omega arith);
      },
    )

-- `pid_alloc` on a valid allocator whose counter is below 2^64 - 2 returns a pid that no process
-- has, and leaves the allocator valid with that pid in use.
pub pid_alloc-IsFresh :
    (live : ℕ → Bool) (a : PidAllocator)
    → IsValid live a
    → a.current < 2 ^ 64 - 2
    → Yields (λ r. (live r.0 ≡ false) × IsValid (with_pid live r.0) r.1) (pid_alloc a)
unfolding pid_alloc
pid_alloc-IsFresh live a v h = elim (Bool-cases (a.sp == 0)) [
  | inl e ↦
      let up : (a.current + 1) % 2 ^ 64 ≡ a.current + 1 = omega arith in
      let down : (a.current + 1 + 2 ^ 64 - 1) % 2 ^ 64 ≡ a.current = omega arith in
      rw (e, up, down) (counter-IsValid live a v h)
  | inr e ↦
      rw (e, load-ok a.recycled_stack (a.sp - 1) 0 (ground (arith, v.size, v.room)))
        (popped-IsValid live a v (ground arith))
]
