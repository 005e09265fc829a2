-- ===== src/Task/Tests.antt =====
-- A kernel with three tasks: INITPROC, its child 2, and 3, the child of 2.
use k210_os.Prelude.{
  ℕ, ◌≡◌, refl, true, false, none, List, [], ◌∷◌, arith, ◌==◌, if◌then◌else◌, ok, panic, ◌>>=◌,
  Yields,
}
use k210_os.ElemList.Queue.{mem}
use k210_os.Task.{
  TaskControlBlock, ready, running, zombie, sleeping, Kernel, task_add, task_fetch, tm_init, run,
  refill, dispatch, acquire_tcb, release_tcb, schedule, suspend_current_and_run_next,
}
use k210_os.Task.Quiet.{with_lock}
use k210_os.Task.Queues.{occurs, Queued, Loose}
use k210_os.Task.Turns.{rounds, Reached, rounds-reach}
use k210_os.Task.History.{turns, adds, start, then_step, Reachable_from_init-Queued}
use k210_os.Task.Family.{waitpid, returns, exit_current_and_run_next, close_files}
use k210_os.Task.Family.Exit.{CanExit}
use k210_os.Task.Family.Exit.{Exited, exit-Exited}
use k210_os.Task.Family.Wait.{Reaped, not_asked, waitpid-Reaped}
use k210_os.Task.Family.Held.{
  Waits, any_wanted, NobodyExits, waitpid-suspend_panic, waitpid-NobodyExits,
}

abbrev block : ℕ → ℕ → List ℕ → TaskControlBlock
block pid parent child = record {
  pid = pid;
  tcb_lock = false;
  task_status = ready;
  base_size = 0;
  root = 0;
  exit_code = 0;
  parent = parent;
  child = child;
  linked = false;
  cwd = 7;
  ofile = none ∷ none ∷ none ∷ none ∷ [];
}

abbrev blocks : ℕ → TaskControlBlock
blocks i =
    if i == 1 then block 1 0 (2 ∷ []) else if i == 2 then block 2 1 (3 ∷ []) else block i 2 []

-- main before it enters run
abbrev boot : Kernel
boot = record {
  tcb = blocks;
  ready_queue = [];
  all_task = [];
  waits = λ q. [];
  current = 0;
  idle = true;
  memory = λ p i. 0;
  ftable = [];
  locked = λ l. false;
}

loose : Loose (tm_init boot) 1
unfolding tm_init occurs
loose = record { in_none = refl; not_waiting = λ q. refl; has_status = refl }

Reachable_from_init-Queued_example : Queued (run (task_add (tm_init boot) 1))
unfolding tm_init task_add
Reachable_from_init-Queued_example =
    Reachable_from_init-Queued boot (run (task_add (tm_init boot) 1)) refl
      (then_step (then_step start (adds 1 loose)) (turns refl))

abbrev three : Kernel
three = record boot { ready_queue = 2 ∷ 3 ∷ 1 ∷ [] }

rounds-reach_example : Yields (Reached 1 (2 ∷ 3 ∷ [])) (rounds 2 three)
rounds-reach_example = rounds-reach three 1 (2 ∷ 3 ∷ []) [] refl (λ t h. ground arith)

-- what the processor runs after two rounds
next_after_two : (rounds 2 three >>= λ k. ok (run k).current) ≡ ok 1
unfolding rounds run task_fetch refill dispatch suspend_current_and_run_next task_add acquire_tcb
    release_tcb schedule
next_after_two = refl

-- 3 runs while its parent 2 waits in sleep_vec
abbrev waited_for : Kernel
waited_for = record boot {
  tcb = λ i.
      if i == 2
      then record (block 2 1 (3 ∷ [])) { task_status = sleeping; tcb_lock = true; linked = true }
      else if i == 3
      then record (block 3 2 []) { task_status = running }
      else blocks i;
  waits = λ q. if q == 1 then 2 ∷ [] else [];
  current = 3;
  idle = false;
}

waited_for-Queued : Queued waited_for
unfolding occurs
waited_for-Queued = record {
  placed = λ t. record {
    once = omega arith;
    once_waiting = λ q. ground arith;
    is_ready = λ h. ground arith;
    is_asleep = λ q h. ground arith;
    one_queue = λ q r h h'. ground arith;
  };
  active = λ busy. record { is_running = refl; unlinked = refl };
}

waited_for-CanExit : CanExit waited_for [] []
unfolding close_files mem
waited_for-CanExit = record {
  not_init = λ e. ground arith;
  free = refl;
  init_free = refl;
  no_own_child = refl;
  files = refl;
}

exit-Exited_example : Yields (Exited waited_for 5) (exit_current_and_run_next waited_for 5)
exit-Exited_example = exit-Exited waited_for 5 [] [] waited_for-Queued refl waited_for-CanExit

-- 2 runs, and its child 3 has exited with the code 5
abbrev child_exited : Kernel
child_exited = record boot {
  tcb = λ i.
      if i == 2
      then record (block 2 1 (3 ∷ [])) { task_status = running }
      else if i == 3
      then record (block 3 2 []) { task_status = zombie; exit_code = 5 }
      else blocks i;
  current = 2;
  idle = false;
}

waitpid-Reaped_example :
    Yields (Reaped child_exited 2 3 [] child_exited.memory) (waitpid child_exited 3 0 0)
waitpid-Reaped_example =
    waitpid-Reaped child_exited 3 0 0 3 [] [] child_exited.memory refl (λ e. ground arith) refl tt
      refl refl refl not_asked

-- 2 runs, and so could its child 3
abbrev child_runs : Kernel
child_runs = record boot {
  tcb = λ i. if i == 2 then record (block 2 1 (3 ∷ [])) { task_status = running } else blocks i;
  current = 2;
  idle = false;
}

child_runs-Waits : Waits child_runs 3
unfolding any_wanted
child_runs-Waits = record {
  free = refl;
  children = (record { free = refl; no_hit = refl }, tt);
  asked = refl;
  is_running = refl;
}

waitpid-suspend_panic_example :
    (waitpid child_runs 3 0 1 ≡ ok (returns 0 (with_lock child_runs 2 true)))
    × (suspend_current_and_run_next (with_lock child_runs 2 true) ≡ panic)
waitpid-suspend_panic_example =
    waitpid-suspend_panic child_runs 3 0 1 child_runs-Waits (λ e. ground arith)

-- INITPROC runs, and so could its child 2
abbrev init_runs : Kernel
init_runs = record boot {
  tcb = λ i. if i == 1 then record (block 1 0 (2 ∷ [])) { task_status = running } else blocks i;
  ready_queue = 2 ∷ [];
  current = 1;
  idle = false;
}

init_runs-Waits : Waits init_runs 2
unfolding any_wanted
init_runs-Waits = record {
  free = refl;
  children = (record { free = refl; no_hit = refl }, tt);
  asked = refl;
  is_running = refl;
}

waitpid-NobodyExits_example : Yields NobodyExits (waitpid init_runs 2 0 0)
waitpid-NobodyExits_example = waitpid-NobodyExits init_runs 2 0 init_runs-Waits refl refl
