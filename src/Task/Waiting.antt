-- ===== src/Task/Waiting.antt =====
-- Falling asleep and waking up keep the lists of the scheduler.
use k210_os.Prelude.{
  ℕ, suc, ◌≡◌, ◌≢◌, inl, inr, refl, ◌∙◌, Bool, true, false, List, [], ◌∷◌, ◌++◌, arith, ◌==◌,
  if◌then◌else◌, ==→eq, Bool-cases, ok, Yields, Yields->>=,
}
use k210_os.ElemList.Queue.{mem}
use k210_os.Task.{
  ready, sleeping, Kernel, sleep_vec, set_status, set_linked, put_queue, release_at, task_add, Lock,
  own_lock, lock_at, change_lock, sleep, wakeup_fromwq, remove, wakeup_fromsv,
}
use k210_os.Task.Queues.{
  occurs, occurs-append, occurs-remove_self, occurs-remove_other, Placed, Active, Queued, Lifted,
  task_add-Placed,
}
use k210_os.Task.Quiet.{
  Quiet, Quiet-refl, with_lock-Quiet, Quiet-Queued, schedule-Queued, acquire_tcb-eq,
}

-- Nobody holds the lock of the task, and the task holds the lock that it sleeps with.
abbrev pub HasLock : Kernel → Lock → Type 0
HasLock k own_lock = Unit
HasLock k (lock_at l) = ((k.tcb k.current).tcb_lock ≡ false) × (k.locked l ≡ true)

change_lock-Quiet :
    (k : Kernel) (lock : Lock) → HasLock k lock → Yields (Quiet k) (change_lock k lock)
unfolding change_lock release_at
change_lock-Quiet k own_lock h = Quiet-refl k
change_lock-Quiet k (lock_at l) (free, held) =
    rw (acquire_tcb-eq k k.current free, held) (other_lock-Quiet (with_lock-Quiet k k.current true))
  where
    other_lock-Quiet :
        {k' : Kernel} {f : ℕ → Bool} → Quiet k k' → Quiet k (record k' { locked = f })
    other_lock-Quiet q = record {
      ready_queue = q.ready_queue;
      all_task = q.all_task;
      waits = q.waits;
      current = q.current;
      idle = q.idle;
      status = q.status;
      linked = q.linked;
    }

-- The state that sleep ends in, behind the change of locks.
abbrev slept : Kernel → ℕ → Kernel
slept k q =
    set_status (put_queue (set_linked k k.current true) q (k.waits q ++ k.current ∷ [])) k.current
      sleeping

slept-Placed : (k : Kernel) (q u : ℕ) → Queued k → Active k → Placed (slept k q) u
unfolding occurs
slept-Placed k q u h a = elim (Bool-cases (u == k.current)) [
  | inr e ↦
      let p : Placed k u = h.placed u in
      let unchanged : (r : ℕ) → occurs u ((slept k q).waits r) ≡ occurs u (k.waits r) =
        λ r. ground (arith, occurs-append u (k.waits q) (k.current ∷ []), occurs) in
      record {
        once = p.once;
        once_waiting = λ r. ground (arith, p.once_waiting r, unchanged r);
        is_ready = λ lt. ground (arith, p.is_ready lt);
        is_asleep = λ r lt. ground (arith, p.is_asleep r, unchanged r);
        one_queue = λ r s lt lt'. ground (arith, p.one_queue r s, unchanged r, unchanged s);
      }
  | inl e ↦
      let is_it : u ≡ k.current = ==→eq u k.current e in
      let p : Placed k k.current = h.placed k.current in
      let none_before : (r : ℕ) → occurs u (k.waits r) ≡ 0 =
        λ r. ground (arith, p.is_asleep r, a.is_running) in
      let counted : (r : ℕ) → occurs u ((slept k q).waits r) ≡ (if r == q then 1 else 0) = λ r.
        ground (
          arith,
          occurs-append u (k.waits q) (k.current ∷ []),
          none_before r,
          none_before q,
          occurs,
        ) in
      record {
        once = ground (arith, p.once);
        once_waiting = λ r. ground (arith, counted r);
        is_ready = λ lt. absurd (ground (arith, p.is_ready, a.is_running));
        is_asleep = λ r lt. ground arith;
        one_queue = λ r s lt lt'. ground (arith, counted r, counted s);
      }
]

-- A running task that has the lock it sleeps with can fall asleep in any wait queue: sleep does not
-- panic, and every task is in at most one place behind it.
pub sleep-Queued :
    (k : Kernel) (wait_queue : ℕ) (lock : Lock)
    → Queued k
    → k.idle ≡ false
    → HasLock k lock
    → Yields Queued (sleep k wait_queue lock)
unfolding sleep
sleep-Queued k wait_queue lock h busy has =
    Yields->>= (Quiet k) Queued (change_lock k lock) _ (change_lock-Quiet k lock has) λ k1 c.
      let h1 : Queued k1 = Quiet-Queued c h in
      let a : Active k1 = h1.active (c.idle ∙ busy) in
      simp a.unlinked
        (schedule-Queued (slept k1 wait_queue) (λ u. slept-Placed k1 wait_queue u h1 a))

-- A task that is taken out of a wait queue and made ready.
abbrev woken : Kernel → ℕ → ℕ → List ℕ → Kernel
woken k p q rest = set_status (put_queue (set_linked k p false) q rest) p ready

woken-Lifted :
    (k : Kernel) (p q : ℕ) (rest : List ℕ)
    → ((u : ℕ) → Placed k u)
    → occurs p (k.waits q) ≡ suc (occurs p rest)
    → ((u : ℕ) → u ≢ p → occurs u rest ≡ occurs u (k.waits q))
    → Lifted (woken k p q rest) p
woken-Lifted k p q rest h self_in others_in = record {
  others = λ u ne.
      let b : Placed k u = h u in
      let unchanged : (r : ℕ) → occurs u ((woken k p q rest).waits r) ≡ occurs u (k.waits r) =
        λ r. ground (arith, others_in u ne) in
      record {
        once = b.once;
        once_waiting = λ r. ground (arith, b.once_waiting r, unchanged r);
        is_ready = λ lt. ground (arith, b.is_ready lt);
        is_asleep = λ r lt. ground (arith, b.is_asleep r, unchanged r);
        one_queue = λ r s lt lt'. ground (arith, b.one_queue r s, unchanged r, unchanged s);
      };
  self =
      let b : Placed k p = h p in
      record {
        in_none = ground (arith, b.is_ready, b.is_asleep q, self_in);
        not_waiting = λ r. ground (arith, b.one_queue r q, b.once_waiting q, self_in);
        has_status = ground arith;
      };
}

-- What makes another task ready leaves the running one.
woken-Active :
    (k : Kernel) (p q : ℕ) (rest : List ℕ)
    → (k.tcb p).task_status ≡ sleeping
    → Active k
    → Active (task_add (woken k p q rest) p)
unfolding task_add
woken-Active k p q rest e a = record {
  is_running = ground (arith, a.is_running, e);
  unlinked = ground (arith, a.is_running, a.unlinked, e);
}

woken-Queued :
    (k : Kernel) (p q : ℕ) (rest : List ℕ)
    → Queued k
    → occurs p (k.waits q) ≡ suc (occurs p rest)
    → ((u : ℕ) → u ≢ p → occurs u rest ≡ occurs u (k.waits q))
    → Queued (task_add (woken k p q rest) p)
unfolding task_add
woken-Queued k p q rest h self_in others_in =
    let asleep : (k.tcb p).task_status ≡ sleeping =
      (h.placed p).is_asleep q (omega (arith, self_in)) in
    record {
      placed = λ u.
          task_add-Placed (woken k p q rest) p u
            (woken-Lifted k p q rest h.placed self_in others_in);
      active = λ busy. woken-Active k p q rest asleep (h.active busy);
    }

-- Waking the first sleeper of a wait queue never finds a task there that is not asleep, and keeps
-- every task in at most one place.
pub wakeup_fromwq-Queued :
    (k : Kernel) (wait_queue : ℕ) → Queued k → Yields Queued (wakeup_fromwq k wait_queue)
unfolding wakeup_fromwq occurs
wakeup_fromwq-Queued k q h = from (k.waits q) refl
  where
    from : (l : List ℕ) → k.waits q ≡ l → Yields Queued (wakeup_fromwq k q)
    from [] e = let r : wakeup_fromwq k q ≡ ok k = ground (arith, e) in rw r h
    from (p ∷ rest) e =
        let r : wakeup_fromwq k q ≡ ok (task_add (woken k p q rest) p) =
          ground (arith, (h.placed p).is_asleep q, e) in
        rw r (woken-Queued k p q rest h (ground (arith, e)) (λ u ne. ground (arith, e)))

pub wakeup_fromsv-Placed :
    (k : Kernel) (p u : ℕ) → ((t : ℕ) → Placed k t) → Placed (wakeup_fromsv k p) u
unfolding wakeup_fromsv
wakeup_fromsv-Placed k p u h = elim (Bool-cases (mem p (k.waits sleep_vec))) [
  | inr e ↦ rw e (h u)
  | inl e ↦ rw e (
      task_add-Placed (woken k p sleep_vec (remove p (k.waits sleep_vec))) p u (
        woken-Lifted k p sleep_vec (remove p (k.waits sleep_vec)) h
          (occurs-remove_self p (k.waits sleep_vec) e)
          (λ t ne. occurs-remove_other p t (k.waits sleep_vec) ne)))
]

-- Waking a parent out of sleep_vec keeps every task in at most one place.
pub wakeup_fromsv-Queued : (k : Kernel) (p : ℕ) → Queued k → Queued (wakeup_fromsv k p)
unfolding wakeup_fromsv
wakeup_fromsv-Queued k p h = elim (Bool-cases (mem p (k.waits sleep_vec))) [
  | inr e ↦ rw e h
  | inl e ↦ rw e (
      woken-Queued k p sleep_vec (remove p (k.waits sleep_vec)) h
        (occurs-remove_self p (k.waits sleep_vec) e)
        (λ u ne. occurs-remove_other p u (k.waits sleep_vec) ne))
]
