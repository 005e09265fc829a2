-- ===== src/Task/History.antt =====
-- What holds after any history of the scheduler.
use k210_os.Prelude.{ℕ, ◌≡◌, true, false, List, arith, Outcome, ok, Yields}
use k210_os.FileTable.{File, Released}
use mathlib.Core.Path.{subst}
use k210_os.Task.{
  Kernel, acquire_tcb, task_create, task_add, tm_init, run, Lock, sleep, wakeup_fromwq,
  suspend_current_and_run_next,
}
use k210_os.Task.Queues.{occurs, Placed, Active, Queued, Loose, Lifted, task_add-Placed}
use k210_os.Task.Quiet.{Quiet, Quiet-Queued}
use k210_os.Task.Running.{run-Queued, suspend-Queued}
use k210_os.Task.Waiting.{HasLock, sleep-Queued, wakeup_fromwq-Queued}
use k210_os.Task.Family.{Left, exit_current_and_run_next}
use k210_os.Task.Family.Exit.{CanExit}
use k210_os.Task.Family.Exit.{Exited, exit-Exited}

-- One step: a round of run, or what the running task, or main before there is one, does to the
-- tasks. A task that is created or added is ready and in no list.
pub data Event (k : Kernel) : Kernel → Type 0 where
  turns : k.idle ≡ true → Event k (run k)
  yields : {k' : Kernel} → k.idle ≡ false → suspend_current_and_run_next k ≡ ok k' → Event k k'
  sleeps :
      {k' : Kernel} (wait_queue : ℕ) (lock : Lock)
      → k.idle ≡ false
      → HasLock k lock
      → sleep k wait_queue lock ≡ ok k'
      → Event k k'
  wakes : {k' : Kernel} (wait_queue : ℕ) → wakeup_fromwq k wait_queue ≡ ok k' → Event k k'
  exits :
      {k' : Kernel} {left : Left} {rs : List Released} {t : List File} (exit_code : ℕ)
      → k.idle ≡ false
      → CanExit k rs t
      → exit_current_and_run_next k exit_code ≡ ok (left, k')
      → Event k k'
  creates : (t : ℕ) → Loose k t → Event k (task_create k t)
  adds : (t : ℕ) → Loose k t → Event k (task_add k t)
  does : {k' : Kernel} → Quiet k k' → Event k k'

-- The states that steps lead to.
pub data Reachable (k : Kernel) : Kernel → Type 0 where
  start : Reachable k k
  then_step : {k1 k2 : Kernel} → Reachable k k1 → Event k1 k2 → Reachable k k2

-- What holds of every result holds of this one.
Yields-ok : {A : Type 0} (P : A → Type 0) (m : Outcome A) (a : A) → m ≡ ok a → Yields P m → P a
Yields-ok P m a e y = subst (Yields P) e y

suspend-free :
    (k k' : Kernel) → suspend_current_and_run_next k ≡ ok k' → (k.tcb k.current).tcb_lock ≡ false
unfolding suspend_current_and_run_next acquire_tcb
suspend-free k k' e = ground (arith, e)

task_add-Queued : (k : Kernel) (t : ℕ) → Loose k t → Queued k → Queued (task_add k t)
unfolding task_add
task_add-Queued k t l h =
    let lifted : Lifted k t = record { others = λ u ne. h.placed u; self = l } in
    record {
      placed = λ u. task_add-Placed k t u lifted;
      active = λ busy. record {
        is_running = ground (arith, (h.active busy).is_running, l.has_status);
        unlinked =
            ground (arith, (h.active busy).unlinked, (h.active busy).is_running, l.has_status);
      };
    }

task_create-Queued : (k : Kernel) (t : ℕ) → Loose k t → Queued k → Queued (task_create k t)
unfolding task_create occurs
task_create-Queued k t l h = record {
  placed = λ u.
      let p : Placed k u = h.placed u in
      record {
        once = ground (arith, p.once, l.in_none);
        once_waiting = p.once_waiting;
        is_ready = λ lt. ground (arith, p.is_ready, l.has_status);
        is_asleep = p.is_asleep;
        one_queue = p.one_queue;
      };
  active = λ busy.
      let a : Active k = h.active busy in
      record { is_running = a.is_running; unlinked = a.unlinked };
}

Event-Queued : {k k' : Kernel} → Event k k' → Queued k → Queued k'
Event-Queued {k} (turns e) h = run-Queued k h
Event-Queued {k} {k'} (yields busy e) h =
    Yields-ok Queued (suspend_current_and_run_next k) k' e
      (suspend-Queued k h busy (suspend-free k k' e))
Event-Queued {k} {k'} (sleeps q lock busy has e) h =
    Yields-ok Queued (sleep k q lock) k' e (sleep-Queued k q lock h busy has)
Event-Queued {k} {k'} (wakes q e) h =
    Yields-ok Queued (wakeup_fromwq k q) k' e (wakeup_fromwq-Queued k q h)
Event-Queued {k} {k'} (exits {left} {rs} {t} code busy can e) h =
    let x : Exited k code (left, k') =
      Yields-ok (Exited k code) (exit_current_and_run_next k code) (left, k') e
        (exit-Exited k code rs t h busy can) in
    x.queued
Event-Queued {k} (creates t l) h = task_create-Queued k t l h
Event-Queued {k} (adds t l) h = task_add-Queued k t l h
Event-Queued {k} (does q) h = Quiet-Queued q h

tm_init-Queued : (k : Kernel) → k.idle ≡ true → Queued (tm_init k)
unfolding tm_init occurs
tm_init-Queued k e = record {
  placed = λ u. record {
    once = omega arith;
    once_waiting = λ q. ground (arith, e);
    is_ready = λ lt. absurd (omega arith);
    is_asleep = λ q lt. ground arith;
    one_queue = λ q r lt lt'. ground arith;
  };
  active = λ busy. cc;
}

Reachable-Queued : {k k' : Kernel} → Queued k → Reachable k k' → Queued k'
Reachable-Queued h start = h
Reachable-Queued h (then_step r s) = Event-Queued s (Reachable-Queued h r)

-- From the start in the loop of run with empty lists, whatever the tasks do in whatever order: no
-- task is twice in the lists of the scheduler, a task in the ready queue or in all_task is ready,
-- one in a wait queue is asleep, and the running task is in none of them.
pub Reachable_from_init-Queued :
    (k k' : Kernel) → k.idle ≡ true → Reachable (tm_init k) k' → Queued k'
Reachable_from_init-Queued k k' e r = Reachable-Queued (tm_init-Queued k e) r
