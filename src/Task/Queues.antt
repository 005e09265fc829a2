-- ===== src/Task/Queues.antt =====
-- The lists of the scheduler: no task is in two of them or in one twice, and the status of a task
-- says in which it is.
use k210_os.Prelude.{
  ℕ, suc, ◌+◌, ◌<◌, ◌≤◌, ◌≡◌, ◌≢◌, inl, inr, refl, true, false, List, [], ◌∷◌, ◌++◌, arith, ◌==◌,
  if◌then◌else◌, ==→eq, Bool-cases,
}
use k210_os.ElemList.Queue.{mem}
use k210_os.Task.{ready, running, sleeping, Kernel, task_add, remove}

unfoldable pub occurs : ℕ → List ℕ → ℕ
occurs t [] = 0
occurs t (x ∷ xs) = (if t == x then 1 else 0) + occurs t xs

pub occurs-append : (t : ℕ) (xs ys : List ℕ) → occurs t (xs ++ ys) ≡ occurs t xs + occurs t ys
unfolding occurs
occurs-append t [] ys = omega arith
occurs-append t (x ∷ xs) ys = omega (arith, occurs-append t xs ys)

pub mem-occurs : (t : ℕ) (xs : List ℕ) → mem t xs ≡ true → 0 < occurs t xs
unfolding mem occurs
mem-occurs t [] h = cc
mem-occurs t (x ∷ xs) h = ground (arith, mem-occurs t xs)

pub occurs-remove_self :
    (t : ℕ) (xs : List ℕ) → mem t xs ≡ true → occurs t xs ≡ suc (occurs t (remove t xs))
unfolding remove occurs mem
occurs-remove_self t [] h = cc
occurs-remove_self t (x ∷ xs) h = ground (arith, occurs-remove_self t xs)

pub occurs-remove_other : (t u : ℕ) (xs : List ℕ) → u ≢ t → occurs u (remove t xs) ≡ occurs u xs
unfolding remove occurs
occurs-remove_other t u [] ne = refl
occurs-remove_other t u (x ∷ xs) ne = ground (arith, occurs-remove_other t u xs ne)

-- What holds of one task: it is in one place at most.
pub record Placed (k : Kernel) (t : ℕ) : Type 0 where
  pub once : occurs t k.ready_queue + occurs t k.all_task ≤ 1
  pub once_waiting : (q : ℕ) → occurs t (k.waits q) ≤ 1
  pub is_ready : 0 < occurs t k.ready_queue + occurs t k.all_task → (k.tcb t).task_status ≡ ready
  pub is_asleep : (q : ℕ) → 0 < occurs t (k.waits q) → (k.tcb t).task_status ≡ sleeping
  pub one_queue : (q r : ℕ) → 0 < occurs t (k.waits q) → 0 < occurs t (k.waits r) → q ≡ r

-- The running task is in no list.
pub record Active (k : Kernel) : Type 0 where
  pub is_running : (k.tcb k.current).task_status ≡ running
  pub unlinked : (k.tcb k.current).linked ≡ false

pub record Queued (k : Kernel) : Type 0 where
  pub placed : (t : ℕ) → Placed k t
  pub active : k.idle ≡ false → Active k

-- In no list, and ready to be put in one.
pub record Loose (k : Kernel) (t : ℕ) : Type 0 where
  pub in_none : occurs t k.ready_queue + occurs t k.all_task ≡ 0
  pub not_waiting : (q : ℕ) → occurs t (k.waits q) ≡ 0
  pub has_status : (k.tcb t).task_status ≡ ready

-- All but `t` are placed, and `t` is loose.
pub record Lifted (k : Kernel) (t : ℕ) : Type 0 where
  pub others : (u : ℕ) → u ≢ t → Placed k u
  pub self : Loose k t

pub task_add-Placed : (k : Kernel) (t u : ℕ) → Lifted k t → Placed (task_add k t) u
unfolding task_add occurs
task_add-Placed k t u h = elim (Bool-cases (u == t)) [
  | inr e ↦
      let ne : u ≢ t = ground arith in
      let p : Placed k u = h.others u ne in
      record {
        once = ground (arith, p.once, occurs-append u k.ready_queue (t ∷ []));
        once_waiting = λ q. p.once_waiting q;
        is_ready = λ lt. ground (arith, p.is_ready, occurs-append u k.ready_queue (t ∷ []));
        is_asleep = λ q lt. ground (arith, p.is_asleep q lt);
        one_queue = λ q r. p.one_queue q r;
      }
  | inl e ↦
      let same : u ≡ t = ==→eq u t e in
      let l : Loose k t = h.self in
      record {
        once = ground (arith, l.in_none, occurs-append u k.ready_queue (t ∷ []));
        once_waiting = λ q. ground (arith, l.not_waiting q);
        is_ready = λ lt. ground (arith, l.has_status);
        is_asleep = λ q lt. absurd (ground (arith, l.not_waiting q));
        one_queue = λ q r lt lt'. absurd (ground (arith, l.not_waiting q));
      }
]
