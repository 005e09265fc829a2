-- ===== src/Task/Quiet.antt =====
-- Changes that are no matter of the lists of the scheduler: of locks, of files, of families, of the
-- running task.
use k210_os.Prelude.{
  ℕ, ◌≡◌, inl, inr, refl, sym, ap, ◌∙◌, Bool, true, false, arith, ◌==◌, ==→eq, Bool-cases, ok,
}
use k210_os.Task.{TaskControlBlock, Kernel, put_tcb, acquire_tcb, release_tcb, schedule}
use k210_os.Task.Queues.{occurs, Placed, Active, Queued, Lifted}

-- Which task runs is no matter of the lists.
pub Placed_switch :
    (k : Kernel) (t u : ℕ) (b : Bool) → Placed k u → Placed (record k { current = t; idle = b }) u
Placed_switch k t u b p = record {
  once = p.once;
  once_waiting = p.once_waiting;
  is_ready = p.is_ready;
  is_asleep = p.is_asleep;
  one_queue = p.one_queue;
}

-- A change that is no matter of the lists: of locks, of files, of the family of a task.
pub record Quiet (k k' : Kernel) : Type 0 where
  pub ready_queue : k'.ready_queue ≡ k.ready_queue
  pub all_task : k'.all_task ≡ k.all_task
  pub waits : (q : ℕ) → k'.waits q ≡ k.waits q
  pub current : k'.current ≡ k.current
  pub idle : k'.idle ≡ k.idle
  pub status : (t : ℕ) → (k'.tcb t).task_status ≡ (k.tcb t).task_status
  pub linked : (t : ℕ) → (k'.tcb t).linked ≡ (k.tcb t).linked

pub Quiet-refl : (k : Kernel) → Quiet k k
Quiet-refl k = record {
  ready_queue = refl;
  all_task = refl;
  waits = λ q. refl;
  current = refl;
  idle = refl;
  status = λ t. refl;
  linked = λ t. refl;
}

pub Quiet-trans : {k k1 k2 : Kernel} → Quiet k k1 → Quiet k1 k2 → Quiet k k2
Quiet-trans a b = record {
  ready_queue = b.ready_queue ∙ a.ready_queue;
  all_task = b.all_task ∙ a.all_task;
  waits = λ q. b.waits q ∙ a.waits q;
  current = b.current ∙ a.current;
  idle = b.idle ∙ a.idle;
  status = λ t. b.status t ∙ a.status t;
  linked = λ t. b.linked t ∙ a.linked t;
}

-- A control block with the status and the links that it had.
pub put_tcb-Quiet :
    (k : Kernel) (t : ℕ) (b : TaskControlBlock)
    → b.task_status ≡ (k.tcb t).task_status
    → b.linked ≡ (k.tcb t).linked
    → Quiet k (put_tcb k t b)
put_tcb-Quiet k t b e l = record {
  ready_queue = refl;
  all_task = refl;
  waits = λ q. refl;
  current = refl;
  idle = refl;
  status = λ u. ground (arith, e);
  linked = λ u. ground (arith, l);
}

pub Quiet-Placed : {k k' : Kernel} (u : ℕ) → Quiet k k' → Placed k u → Placed k' u
Quiet-Placed {k} {k'} u c p =
    let same : (q : ℕ) → occurs u (k'.waits q) ≡ occurs u (k.waits q) =
      λ q. ap (occurs u) (c.waits q) in
    record {
      once = rw (c.ready_queue, c.all_task) p.once;
      once_waiting = λ q. rw (c.waits q) (p.once_waiting q);
      is_ready = λ lt.
          c.status u
          ∙ p.is_ready (ground (arith, lt, ap (occurs u) c.ready_queue, ap (occurs u) c.all_task));
      is_asleep = λ q lt. c.status u ∙ p.is_asleep q (omega (arith, lt, same q));
      one_queue =
          λ q r lt lt'. p.one_queue q r (omega (arith, lt, same q)) (omega (arith, lt', same r));
    }

pub Quiet-Lifted : {k k' : Kernel} (t : ℕ) → Quiet k k' → Lifted k t → Lifted k' t
Quiet-Lifted t c h = record {
  others = λ u ne. Quiet-Placed u c (h.others u ne);
  self = record {
    in_none = rw (c.ready_queue, c.all_task) h.self.in_none;
    not_waiting = λ q. rw (c.waits q) (h.self.not_waiting q);
    has_status = c.status t ∙ h.self.has_status;
  };
}

pub Quiet-Queued : {k k' : Kernel} → Quiet k k' → Queued k → Queued k'
Quiet-Queued {k} {k'} c h = record {
  placed = λ u. Quiet-Placed u c (h.placed u);
  active = λ busy.
      let a : Active k = h.active (sym c.idle ∙ busy) in
      record {
        is_running = rw c.current (c.status k.current ∙ a.is_running);
        unlinked = rw c.current (c.linked k.current ∙ a.unlinked);
      };
}

-- The running task is in no list, so its control block is no matter of the lists.
pub running-Placed :
    (k : Kernel) (b : TaskControlBlock) (u : ℕ)
    → Queued k
    → k.idle ≡ false
    → Placed (put_tcb k k.current b) u
running-Placed k b u h busy = elim (Bool-cases (u == k.current)) [
  | inr e ↦ record {
    once = (h.placed u).once;
    once_waiting = (h.placed u).once_waiting;
    is_ready = λ lt. ground (arith, (h.placed u).is_ready lt);
    is_asleep = λ q lt. ground (arith, (h.placed u).is_asleep q lt);
    one_queue = (h.placed u).one_queue;
  }
  | inl e ↦
      let is_it : u ≡ k.current = ==→eq u k.current e in
      let a : Active k = h.active busy in
      let p : Placed k u = h.placed u in
      record {
        once = p.once;
        once_waiting = p.once_waiting;
        is_ready = λ lt. absurd (ground (arith, p.is_ready lt, a.is_running));
        is_asleep = λ q lt. absurd (ground (arith, p.is_asleep q lt, a.is_running));
        one_queue = p.one_queue;
      }
]

-- Into the loop of run: only the lists matter.
pub schedule-Queued : (k : Kernel) → ((u : ℕ) → Placed k u) → Queued (schedule k)
unfolding schedule
schedule-Queued k p = record {
  placed = λ u. Placed_switch k k.current u true (p u);
  active = λ busy. cc;
}

abbrev pub with_lock : Kernel → ℕ → Bool → Kernel
with_lock k t b = put_tcb k t (record (k.tcb t) { tcb_lock = b })

pub with_lock-Quiet : (k : Kernel) (t : ℕ) (b : Bool) → Quiet k (with_lock k t b)
with_lock-Quiet k t b = put_tcb-Quiet k t (record (k.tcb t) { tcb_lock = b }) refl refl

pub acquire_tcb-eq :
    (k : Kernel) (t : ℕ) → (k.tcb t).tcb_lock ≡ false → acquire_tcb k t ≡ ok (with_lock k t true)
unfolding acquire_tcb
acquire_tcb-eq k t e = rw e refl

pub release_tcb-eq :
    (k : Kernel) (t : ℕ) → (k.tcb t).tcb_lock ≡ true → release_tcb k t ≡ ok (with_lock k t false)
unfolding release_tcb
release_tcb-eq k t e = rw e refl
