-- ===== src/Task/Family/Exit.antt =====
-- What exit does to the task, to its children and to its parent.
use k210_os.Prelude.{
  ℕ, ◌%◌, ◌^◌, ◌≡◌, ◌≢◌, refl, ◌∙◌, true, false, Option, none, List, [], ◌∷◌, ◌++◌, arith, ◌==◌,
  length, replicate, take, drop, ok, Yields, Yields->>=,
}
use k210_os.FileTable.{File, Released}
use k210_os.ElemList.Queue.{mem}
use k210_os.Task.{
  TaskControlBlock, zombie, Kernel, initproc, sleep_vec, put_tcb, task_add, schedule, wakeup_fromsv,
}
use k210_os.Task.Quiet.{
  schedule-Queued, running-Placed, Quiet-Placed, Quiet, Quiet-trans, with_lock-Quiet, Quiet-Queued,
  with_lock, acquire_tcb-eq, release_tcb-eq,
}
use k210_os.Task.Queues.{mem-occurs, Placed, Queued}
use k210_os.Task.Waiting.{wakeup_fromsv-Placed}
use k210_os.Task.Family.{
  close_files, Left, exit_current_and_run_next, reparent, close_ofile, set_zombie,
}
use k210_os.Task.Family.Orphans.{moved, Reparented, reparent-Reparented}

-- What lets a task exit: it is not INITPROC or its own child, nobody holds its lock or INITPROC's,
-- and its files can be closed.
pub record CanExit (k : Kernel) (rs : List Released) (t : List File) : Type 0 where
  pub not_init : k.current ≢ initproc
  pub free : (k.tcb k.current).tcb_lock ≡ false
  pub init_free : (k.tcb initproc).tcb_lock ≡ false
  pub no_own_child : mem k.current (k.tcb k.current).child ≡ false
  pub files : close_files k.ftable (drop 3 (k.tcb k.current).ofile) ≡ ok (rs, t)

-- What exit has come to when it wakes the parent.
record Finished (k : Kernel) (exit_code : ℕ) (k' : Kernel) : Type 0 where
  placed : (u : ℕ) → Placed k' u
  waits : (q : ℕ) → k'.waits q ≡ k.waits q
  ready_queue : k'.ready_queue ≡ k.ready_queue
  current : k'.current ≡ k.current
  is_zombie : (k'.tcb k.current).task_status ≡ zombie
  code : (k'.tcb k.current).exit_code ≡ exit_code % 2 ^ 32
  unlocked : (k'.tcb k.current).tcb_lock ≡ false
  childless : (k'.tcb k.current).child ≡ []
  parent : (k'.tcb k.current).parent ≡ (k.tcb k.current).parent
  cwd : (k'.tcb k.current).cwd ≡ (k.tcb k.current).cwd
  others : (t : ℕ) → t ≢ k.current → k'.tcb t ≡ moved k k.current t

-- What exit comes to: the task is a zombie with the code, in no list and with no children; its
-- children are INITPROC's; its parent, if asleep in sleep_vec, is the last of the ready queue.
pub record Exited (k : Kernel) (exit_code : ℕ) (r : Left × Kernel) : Type 0 where
  pub queued : Queued r.1
  pub is_zombie : (r.1.tcb k.current).task_status ≡ zombie
  pub code : (r.1.tcb k.current).exit_code ≡ exit_code % 2 ^ 32
  pub unlocked : (r.1.tcb k.current).tcb_lock ≡ false
  pub childless : (r.1.tcb k.current).child ≡ []
  pub orphans :
      (c : ℕ) → mem c (k.tcb k.current).child ≡ true → c ≢ k.current → (r.1.tcb c).parent ≡ initproc
  pub adopted : (r.1.tcb initproc).child ≡ (k.tcb initproc).child ++ (k.tcb k.current).child
  pub woken :
      mem (k.tcb k.current).parent (k.waits sleep_vec) ≡ true
      → r.1.ready_queue ≡ k.ready_queue ++ (k.tcb k.current).parent ∷ []
  pub cwd : r.0.cwd ≡ (k.tcb k.current).cwd

wakeup_fromsv-queue :
    (k : Kernel) (p : ℕ)
    → mem p (k.waits sleep_vec) ≡ true
    → (wakeup_fromsv k p).ready_queue ≡ k.ready_queue ++ p ∷ []
unfolding wakeup_fromsv task_add
wakeup_fromsv-queue k p h = ground (arith, h)

-- Waking a task leaves the blocks of the others, and their families, as they are.
wakeup_fromsv-other : (k : Kernel) (p t : ℕ) → t ≢ p → (wakeup_fromsv k p).tcb t ≡ k.tcb t
unfolding wakeup_fromsv task_add
wakeup_fromsv-other k p t ne = ground arith

record SameFamily (a b : TaskControlBlock) : Type 0 where
  parent : a.parent ≡ b.parent
  child : a.child ≡ b.child
  exit_code : a.exit_code ≡ b.exit_code
  tcb_lock : a.tcb_lock ≡ b.tcb_lock

wakeup_fromsv-SameFamily : (k : Kernel) (p t : ℕ) → SameFamily ((wakeup_fromsv k p).tcb t) (k.tcb t)
unfolding wakeup_fromsv task_add
wakeup_fromsv-SameFamily k p t = record {
  parent = ground arith;
  child = ground arith;
  exit_code = ground arith;
  tcb_lock = ground arith;
}

-- A task that is no sleeper keeps its status.
wakeup_fromsv-status :
    (k : Kernel) (p t : ℕ)
    → ((u : ℕ) → Placed k u)
    → (k.tcb t).task_status ≡ zombie
    → ((wakeup_fromsv k p).tcb t).task_status ≡ zombie
unfolding wakeup_fromsv task_add
wakeup_fromsv-status k p t h e =
    ground (arith, (h t).is_asleep sleep_vec, mem-occurs t (k.waits sleep_vec))

-- The state behind the `for` of exit and the release of the lock.
abbrev files_closed : Kernel → ℕ → List File → Kernel
files_closed k task t =
    let fds : List (Option ℕ) = (k.tcb task).ofile in
    let fds' : List (Option ℕ) = take 3 fds ++ replicate (length (drop 3 fds)) none in
    record (put_tcb k task (record (k.tcb task) { ofile = fds' })) { ftable = t }

files_closed-Quiet :
    (k : Kernel) (task : ℕ) (t : List File) → Quiet k (with_lock (files_closed k task t) task false)
files_closed-Quiet k task t = record {
  ready_queue = refl;
  all_task = refl;
  waits = λ q. refl;
  current = refl;
  idle = refl;
  status = λ u. ground arith;
  linked = λ u. ground arith;
}

abbrev locked_zombie : Kernel → ℕ → Kernel
locked_zombie k exit_code = set_zombie (with_lock k k.current true) k.current exit_code

locked_zombie-Placed :
    (k : Kernel) (exit_code u : ℕ)
    → Queued k
    → k.idle ≡ false
    → Placed (locked_zombie k exit_code) u
unfolding set_zombie
locked_zombie-Placed k exit_code u h busy =
    running-Placed (with_lock k k.current true) _ u
      (Quiet-Queued (with_lock-Quiet k k.current true) h) busy

files_closed-Finished :
    (k k1 : Kernel) (exit_code : ℕ) (t : List File)
    → Queued k
    → k.idle ≡ false
    → k.current ≢ initproc
    → mem k.current (k.tcb k.current).child ≡ false
    → Reparented (locked_zombie k exit_code) k.current k1
    → Finished k exit_code (with_lock (files_closed k1 k.current t) k.current false)
unfolding set_zombie
files_closed-Finished k k1 exit_code t h busy ne own r =
    let k0 : Kernel = locked_zombie k exit_code in
    let q : Quiet k0 (with_lock (files_closed k1 k.current t) k.current false) =
      Quiet-trans r.quiet (files_closed-Quiet k1 k.current t) in
    record {
      placed = λ u. Quiet-Placed u q (locked_zombie-Placed k exit_code u h busy);
      waits = q.waits;
      ready_queue = q.ready_queue;
      current = q.current;
      is_zombie = ground (arith, r.blocks k.current);
      code = ground (arith, r.blocks k.current);
      unlocked = ground arith;
      childless = ground (arith, r.blocks k.current, ne);
      parent = ground (arith, r.blocks k.current, own);
      cwd = ground (arith, r.blocks k.current);
      others = λ u other. ground (arith, r.blocks u);
    }

close_ofile-eq :
    (k : Kernel) (task : ℕ) (rs : List Released) (t : List File)
    → close_files k.ftable (drop 3 (k.tcb task).ofile) ≡ ok (rs, t)
    → close_ofile k task ≡ ok (rs, files_closed k task t)
unfolding close_ofile
close_ofile-eq k task rs t e = rw e refl

-- What the waking of the parent leaves of it.
Finished-Exited :
    (k k1 : Kernel) (exit_code : ℕ) (left : Left)
    → Finished k exit_code k1
    → k.current ≢ initproc
    → left.cwd ≡ (k1.tcb k.current).cwd
    → Exited k exit_code (left, schedule (wakeup_fromsv k1 (k1.tcb k.current).parent))
unfolding schedule
Finished-Exited k k1 exit_code left e ne c =
    let p : ℕ = (k1.tcb k.current).parent in
    let k2 : Kernel = wakeup_fromsv k1 p in
    let family : (t : ℕ) → SameFamily (k2.tcb t) (k1.tcb t) = wakeup_fromsv-SameFamily k1 p in
    record {
      queued = schedule-Queued k2 (λ u. wakeup_fromsv-Placed k1 p u e.placed);
      is_zombie = wakeup_fromsv-status k1 p k.current e.placed e.is_zombie;
      code = (family k.current).exit_code ∙ e.code;
      unlocked = (family k.current).tcb_lock ∙ e.unlocked;
      childless = (family k.current).child ∙ e.childless;
      orphans = λ u m other. (family u).parent ∙ ground (arith, e.others u other, m);
      adopted = (family initproc).child ∙ ground (arith, e.others initproc, ne);
      woken = λ m.
          wakeup_fromsv-queue k1 p (rw (e.parent, e.waits sleep_vec) m)
          ∙ rw (e.ready_queue, e.parent) refl;
      cwd = c ∙ e.cwd;
    }

-- A running task that is not INITPROC, with its own and INITPROC's lock free and files that can be
-- closed, exits without a panic: it is a zombie with the code, in no list and with no children; its
-- children are INITPROC's, behind those that INITPROC had; and its parent, if it is asleep in
-- sleep_vec, is ready, the last in the queue.
pub exit-Exited :
    (k : Kernel) (exit_code : ℕ) (rs : List Released) (t : List File)
    → Queued k
    → k.idle ≡ false
    → CanExit k rs t
    → Yields (Exited k exit_code) (exit_current_and_run_next k exit_code)
unfolding exit_current_and_run_next set_zombie
exit-Exited k exit_code rs t h busy can =
    let k0 : Kernel = locked_zombie k exit_code in
    let free : (k0.tcb initproc).tcb_lock ≡ false = ground (arith, can.init_free, can.not_init) in
    let other : (k.current == initproc) ≡ false = ground (arith, can.not_init) in
    rw (other, acquire_tcb-eq k k.current can.free)
      (Yields->>= (Reparented k0 k.current) (Exited k exit_code) (reparent k0 k.current) _
        (reparent-Reparented k0 k.current can.not_init free)
        λ k1 r.
          let k2 : Kernel = files_closed k1 k.current t in
          let same_ofile : (k1.tcb k.current).ofile ≡ (k.tcb k.current).ofile =
            ground (arith, r.blocks k.current) in
          let fds : close_files k1.ftable (drop 3 (k1.tcb k.current).ofile) ≡ ok (rs, t) =
            rw (r.ftable, same_ofile) can.files in
          let held : (k2.tcb k.current).tcb_lock ≡ true = ground (arith, r.blocks k.current) in
          rw (close_ofile-eq k1 k.current rs t fds, release_tcb-eq k2 k.current held)
            (Finished-Exited k (with_lock k2 k.current false) exit_code _
              (files_closed-Finished k k1 exit_code t h busy can.not_init can.no_own_child r)
              can.not_init refl))
