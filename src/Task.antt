-- ===== src/Task.antt =====
-- src/tk_manage.c, src/tk_proc.c, src/tk_task.c: tasks, the scheduler and waiting for children, on
-- the one processor that runs tasks: main enters task_run on hart 0 and releases hart 1 only behind
-- that call. A task is named by the address of its control block, 0 being NULL; a list of tags is
-- the list of their tasks, and a wait queue is named by its address.
pub mod Family
pub mod History
pub mod Queues
pub mod Quiet
pub mod Running
pub mod Turns
pub mod Waiting
mod Tests
use k210_os.Prelude.{
  ℕ, zero, suc, ◌+◌, ◌-◌, ◌*◌, ◌/◌, ◌%◌, ◌^◌, ◌<◌, ◌≤◌, ◌≡◌, ◌≢◌, ◌↔◌, ◌⊎◌, inl, inr, refl, sym, ap,
  ◌∙◌, min, max, Bool, true, false, not, ◌&&◌, ◌||◌, Option, none, some, List, [], ◌∷◌, ◌++◌, map,
  arith, ltb, leb, ◌==◌, if◌then◌else◌, lt→ltb, ltb→lt, ltb→le, leb→le, eq→==, ==→eq, Bool-cases,
  length, get_elem?, get_or, set, replicate, take, drop, length-append, length-set,
  length-replicate, get_elem?-eq-get_or, get_or-set, get_or-append, set-set, set-get_or, Outcome,
  ok, panic, fault, hang, ◌>>=◌, ◌>>◌, assert, from_option, load, store, load-ok, store-ok, Yields,
  Yields->>=, Yields-map, holds_below, holds_below→test,
}
use k210_os.Address.{word}
use k210_os.PageTable.{Memory}
use k210_os.UserMemory.{copyout2}
use k210_os.FileTable.{File, filedup, fileclose, Released}
use k210_os.ElemList.Queue.{mem}

pub data TaskStatus : Type 0 where
  uninit ready running zombie sleeping : TaskStatus

abbrev pub is_zombie : TaskStatus → Bool
is_zombie zombie = true
is_zombie _ = false

abbrev pub is_sleeping : TaskStatus → Bool
is_sleeping sleeping = true
is_sleeping _ = false

-- `tcb_lock` says whether the lock is held, `linked` whether a pointer of `tag` is not NULL, `root`
-- is the page of the root table of `memory_set`, and `ofile` holds positions in the table of files.
pub record TaskControlBlock : Type 0 where
  pub pid : ℕ
  pub tcb_lock : Bool
  pub task_status : TaskStatus
  pub base_size : ℕ
  pub root : ℕ
  pub exit_code : ℕ
  pub parent : ℕ
  pub child : List ℕ
  pub linked : Bool
  pub cwd : ℕ
  pub ofile : List (Option ℕ)

-- The task manager, the processor with the task that it last ran and whether it is in `run`, the
-- memory of user tasks, the table of files, and the locks that are no tcb_lock.
pub record Kernel : Type 0 where
  pub tcb : ℕ → TaskControlBlock
  pub ready_queue : List ℕ
  pub all_task : List ℕ
  pub waits : ℕ → List ℕ
  pub current : ℕ
  pub idle : Bool
  pub memory : Memory
  pub ftable : List File
  pub locked : ℕ → Bool

-- the addresses of INITPROC and of TASK_MANAGER.sleep_vec
abbrev pub initproc : ℕ
initproc = 1

abbrev pub sleep_vec : ℕ
sleep_vec = 1

abbrev pub put_tcb : Kernel → ℕ → TaskControlBlock → Kernel
put_tcb k t b = record k { tcb = λ i. if i == t then b else k.tcb i }

abbrev pub put_queue : Kernel → ℕ → List ℕ → Kernel
put_queue k q l = record k { waits = λ i. if i == q then l else k.waits i }

abbrev pub put_lock : Kernel → ℕ → Bool → Kernel
put_lock k l b = record k { locked = λ i. if i == l then b else k.locked i }

abbrev pub set_status : Kernel → ℕ → TaskStatus → Kernel
set_status k t s = put_tcb k t (record (k.tcb t) { task_status = s })

abbrev pub set_linked : Kernel → ℕ → Bool → Kernel
set_linked k t b = put_tcb k t (record (k.tcb t) { linked = b })

-- acquire and release on the tcb_lock of a task; no other processor holds it
unfoldable pub acquire_tcb : Kernel → ℕ → Outcome Kernel
acquire_tcb k t =
    if (k.tcb t).tcb_lock then panic else ok (put_tcb k t (record (k.tcb t) { tcb_lock = true }))

unfoldable pub release_tcb : Kernel → ℕ → Outcome Kernel
release_tcb k t =
    if (k.tcb t).tcb_lock then ok (put_tcb k t (record (k.tcb t) { tcb_lock = false })) else panic

-- and on another lock
unfoldable pub acquire_at : Kernel → ℕ → Outcome Kernel
acquire_at k l = if k.locked l then panic else ok (put_lock k l true)

unfoldable pub release_at : Kernel → ℕ → Outcome Kernel
release_at k l = if k.locked l then ok (put_lock k l false) else panic

-- The wait queues are those that other components initialise, empty too.
unfoldable pub tm_init : Kernel → Kernel
tm_init k = record k { ready_queue = []; all_task = []; waits = λ q. [] }

unfoldable pub task_create : Kernel → ℕ → Kernel
task_create k t = record k { all_task = t ∷ k.all_task }

unfoldable pub task_add : Kernel → ℕ → Kernel
task_add k t = record (set_linked k t true) { ready_queue = k.ready_queue ++ t ∷ [] }

unfoldable pub task_fetch : Kernel → Option ℕ × Kernel
task_fetch k = elim k.ready_queue [
  | [] ↦ (none, k)
  | t ∷ rest ↦ (some t, record (set_linked k t false) { ready_queue = rest })
]

-- The middle of the loop of run: an empty ready queue gets a task that was created.
unfoldable pub refill : Kernel → Kernel
refill k = elim k.ready_queue [
  | x ∷ rest ↦ k
  | [] ↦ elim k.all_task [
    | [] ↦ k
    | t ∷ rest ↦ record (set_linked k t true) { all_task = rest; ready_queue = t ∷ [] }
  ]
]

-- The end of the loop, up to the switch to the task.
unfoldable pub dispatch : Option ℕ → Kernel → Kernel
dispatch none k = k
dispatch (some t) k = record (set_status k t running) { current = t; idle = false }

-- One round of the loop of run.
unfoldable pub run : Kernel → Kernel
run k = let (task, k') = task_fetch k in dispatch task (refill k')

-- The switch back to the loop of run.
unfoldable pub schedule : Kernel → Kernel
schedule k = record k { idle = true }

-- The lock that sleep is called with.
pub data Lock : Type 0 where
  own_lock : Lock
  lock_at : ℕ → Lock

unfoldable pub change_lock : Kernel → Lock → Outcome Kernel
change_lock k own_lock = ok k
change_lock k (lock_at l) = acquire_tcb k k.current >>= λ k'. release_at k' l

-- sleep up to the switch
unfoldable pub sleep : Kernel → ℕ → Lock → Outcome Kernel
sleep k wait_queue lock = do
  k1 ← change_lock k lock
  let p : ℕ = k1.current
  let k2 : Kernel = put_queue (set_linked k1 p true) wait_queue (k1.waits wait_queue ++ p ∷ [])
  if (k1.tcb p).linked then panic else ok (schedule (set_status k2 p sleeping))

-- and behind it, when the task runs again
unfoldable pub awake : Kernel → Lock → Outcome Kernel
awake k own_lock = ok k
awake k (lock_at l) = release_tcb k k.current >>= λ k'. acquire_at k' l

unfoldable pub wakeup_fromwq : Kernel → ℕ → Outcome Kernel
wakeup_fromwq k wait_queue = elim (k.waits wait_queue) [
  | [] ↦ ok k
  | p ∷ rest ↦
      let k1 : Kernel = put_queue (set_linked k p false) wait_queue rest in
      if is_sleeping (k1.tcb p).task_status then ok (task_add (set_status k1 p ready) p) else panic
]

-- list_remove of a tag that is in the list
unfoldable pub remove : ℕ → List ℕ → List ℕ
remove t [] = []
remove t (x ∷ xs) = let rest : List ℕ = remove t xs in if t == x then xs else x ∷ rest

unfoldable pub wakeup_fromsv : Kernel → ℕ → Kernel
wakeup_fromsv k p =
    let k1 : Kernel = put_queue (set_linked k p false) sleep_vec (remove p (k.waits sleep_vec)) in
    if mem p (k.waits sleep_vec) then task_add (set_status k1 p ready) p else k

unfoldable pub suspend_current_and_run_next : Kernel → Outcome Kernel
suspend_current_and_run_next k = do
  let task : ℕ = k.current
  k1 ← acquire_tcb k task
  k2 ← release_tcb (set_status k1 task ready) task
  ok (schedule (task_add k2 task))
