-- ===== src/Task/Running.antt =====
-- Getting the processor and yielding it keep the lists of the scheduler.
use k210_os.Prelude.{
  ℕ, ◌≡◌, inl, inr, refl, true, false, none, some, List, [], ◌∷◌, arith, ◌==◌, ==→eq, Bool-cases,
  Yields,
}
use k210_os.Task.{
  TaskStatus, ready, running, Kernel, set_status, task_add, task_fetch, refill, dispatch, run,
  suspend_current_and_run_next,
}
use k210_os.Task.Queues.{occurs, Placed, Active, Queued, Loose, Lifted, task_add-Placed}
use k210_os.Task.Quiet.{
  Placed_switch, Quiet-Lifted, Quiet-Queued, schedule-Queued, with_lock, with_lock-Quiet,
  acquire_tcb-eq, release_tcb-eq,
}

refill-Placed : (k : Kernel) (u : ℕ) → Placed k u → Placed (refill k) u
unfolding refill occurs
refill-Placed k u p = record {
  once = ground (arith, p.once);
  once_waiting = λ q. ground (arith, p.once_waiting q);
  is_ready = λ lt. ground (arith, p.is_ready);
  is_asleep = λ q lt. ground (arith, p.is_asleep q);
  one_queue = λ q r lt lt'. ground (arith, p.one_queue q r);
}

task_fetch-Lifted :
    (k : Kernel) (t : ℕ) (rest : List ℕ)
    → k.ready_queue ≡ t ∷ rest
    → ((u : ℕ) → Placed k u)
    → Lifted (task_fetch k).1 t
unfolding task_fetch occurs
task_fetch-Lifted k t rest e p = rw e (record {
  others = λ u ne. record {
    once = ground (arith, (p u).once, e);
    once_waiting = λ q. (p u).once_waiting q;
    is_ready = λ lt. ground (arith, (p u).is_ready, e);
    is_asleep = λ q lt. ground (arith, (p u).is_asleep q);
    one_queue = λ q r lt lt'. (p u).one_queue q r lt lt';
  };
  self = record {
    in_none = ground (arith, (p t).once, e);
    not_waiting = λ q. ground (arith, (p t).is_asleep q, (p t).is_ready, e);
    has_status = ground (arith, (p t).is_ready, e);
  };
})

refill-Lifted : (k : Kernel) (t : ℕ) → Lifted k t → Lifted (refill k) t
unfolding refill occurs
refill-Lifted k t h = record {
  others = λ u ne. refill-Placed k u (h.others u ne);
  self = record {
    in_none = ground (arith, h.self.in_none);
    not_waiting = λ q. ground (arith, h.self.not_waiting q);
    has_status = ground (arith, h.self.in_none, h.self.has_status);
  };
}

-- A task that is taken out of the lists may get any status.
set_status-Placed :
    (k : Kernel) (t u : ℕ) (s : TaskStatus) → Lifted k t → Placed (set_status k t s) u
set_status-Placed k t u s h = elim (Bool-cases (u == t)) [
  | inr e ↦
      let p : Placed k u = h.others u (ground arith) in
      record {
        once = p.once;
        once_waiting = p.once_waiting;
        is_ready = λ lt. ground (arith, p.is_ready lt);
        is_asleep = λ q lt. ground (arith, p.is_asleep q lt);
        one_queue = p.one_queue;
      }
  | inl e ↦
      let same : u ≡ t = ==→eq u t e in
      record {
        once = ground (arith, h.self.in_none);
        once_waiting = λ q. ground (arith, h.self.not_waiting q);
        is_ready = λ lt. absurd (ground (arith, h.self.in_none));
        is_asleep = λ q lt. absurd (ground (arith, h.self.not_waiting q));
        one_queue = λ q r lt lt'. absurd (ground (arith, h.self.not_waiting q));
      }
]

refill-linked : (k : Kernel) (t : ℕ) → Loose k t → ((refill k).tcb t).linked ≡ (k.tcb t).linked
unfolding refill occurs
refill-linked k t h = ground (arith, h.in_none)

refill-Active : (k : Kernel) → ((u : ℕ) → Placed k u) → Active k → Active (refill k)
unfolding refill occurs
refill-Active k p a = record {
  is_running = ground (arith, a.is_running, (p k.current).is_ready);
  unlinked = ground (arith, a.unlinked, a.is_running, (p k.current).is_ready);
}

pub run_empty : (k : Kernel) → k.ready_queue ≡ [] → run k ≡ refill k
unfolding run task_fetch dispatch
run_empty k e = let fetched : task_fetch k ≡ (none, k) = ground (arith, e) in rw fetched refl

pub run_next :
    (k : Kernel) (t : ℕ) (rest : List ℕ)
    → k.ready_queue ≡ t ∷ rest
    → run k ≡ dispatch (some t) (refill (task_fetch k).1)
unfolding run task_fetch
run_next k t rest e = let fetched : (task_fetch k).0 ≡ some t = ground (arith, e) in rw fetched refl

run_next-Queued :
    (k : Kernel) (t : ℕ) (rest : List ℕ)
    → k.ready_queue ≡ t ∷ rest
    → ((u : ℕ) → Placed k u)
    → Queued (dispatch (some t) (refill (task_fetch k).1))
unfolding dispatch task_fetch
run_next-Queued k t rest e p =
    let lifted : Lifted (refill (task_fetch k).1) t =
      refill-Lifted (task_fetch k).1 t (task_fetch-Lifted k t rest e p) in
    let off : ((task_fetch k).1.tcb t).linked ≡ false = ground (arith, e) in
    record {
      placed = λ u.
          Placed_switch _ t u false
            (set_status-Placed (refill (task_fetch k).1) t u running lifted);
      active = λ busy. record {
        is_running = ground arith;
        unlinked =
            ground
              (arith, off, refill-linked (task_fetch k).1 t (task_fetch-Lifted k t rest e p).self);
      };
    }

-- A round of run keeps every task in at most one place.
pub run-Queued : (k : Kernel) → Queued k → Queued (run k)
unfolding refill
run-Queued k h = from k.ready_queue refl
  where
    from : (rs : List ℕ) → k.ready_queue ≡ rs → Queued (run k)
    from [] e = rw (run_empty k e) (record {
      placed = λ u. refill-Placed k u (h.placed u);
      active = λ busy. refill-Active k h.placed (h.active (ground (arith, busy)));
    })
    from (t ∷ rest) e = rw (run_next k t rest e) (run_next-Queued k t rest e h.placed)

-- The running task leaves: it is in no list.
leave-Lifted :
    (k : Kernel) → Queued k → k.idle ≡ false → Lifted (set_status k k.current ready) k.current
leave-Lifted k h busy =
    let a : Active k = h.active busy in
    let p : Placed k k.current = h.placed k.current in
    record {
      others = λ u ne. record {
        once = (h.placed u).once;
        once_waiting = (h.placed u).once_waiting;
        is_ready = λ lt. ground (arith, (h.placed u).is_ready lt);
        is_asleep = λ q lt. ground (arith, (h.placed u).is_asleep q lt);
        one_queue = (h.placed u).one_queue;
      };
      self = record {
        in_none = ground (arith, p.is_ready, a.is_running);
        not_waiting = λ q. ground (arith, p.is_asleep q, a.is_running);
        has_status = ground arith;
      };
    }

-- A running task whose lock is not held can yield: the yield does not panic, and every task is in
-- at most one place behind it.
pub suspend-Queued :
    (k : Kernel)
    → Queued k
    → k.idle ≡ false
    → (k.tcb k.current).tcb_lock ≡ false
    → Yields Queued (suspend_current_and_run_next k)
unfolding suspend_current_and_run_next
suspend-Queued k h busy free =
    let k1 : Kernel = with_lock k k.current true in
    let k2 : Kernel = set_status k1 k.current ready in
    let k3 : Kernel = with_lock k2 k.current false in
    let held : (k2.tcb k.current).tcb_lock ≡ true = ground arith in
    let lifted : Lifted k2 k.current =
      leave-Lifted k1 (Quiet-Queued (with_lock-Quiet k k.current true) h) busy in
    let lifted' : Lifted k3 k.current =
      Quiet-Lifted k.current (with_lock-Quiet k2 k.current false) lifted in
    rw (acquire_tcb-eq k k.current free, release_tcb-eq k2 k.current held)
      (schedule-Queued (task_add k3 k.current) (λ u. task_add-Placed k3 k.current u lifted'))
