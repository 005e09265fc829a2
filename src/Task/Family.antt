-- ===== src/Task/Family.antt =====
-- src/tk_task.c: fork, exit and waitpid, as far as tasks, files and user memory go. The heap, the
-- kernel stacks and the address spaces are not part of it.
pub mod Exit
pub mod Orphans
pub mod Held
pub mod Wait
use k210_os.Prelude.{
  ℕ, zero, suc, ◌+◌, ◌-◌, ◌*◌, ◌/◌, ◌%◌, ◌^◌, ◌<◌, ◌≤◌, ◌≡◌, ◌≢◌, ◌↔◌, ◌⊎◌, inl, inr, refl, sym, ap,
  ◌∙◌, min, max, Bool, true, false, not, ◌&&◌, ◌||◌, Option, none, some, List, [], ◌∷◌, ◌++◌, map,
  arith, ltb, leb, ◌==◌, if◌then◌else◌, lt→ltb, ltb→lt, ltb→le, leb→le, eq→==, ==→eq, Bool-cases,
  length, get_elem?, get_or, set, replicate, take, drop, length-append, length-set,
  length-replicate, get_elem?-eq-get_or, get_or-set, get_or-append, set-set, set-get_or, Outcome,
  ok, panic, fault, hang, ◌>>=◌, ◌>>◌, assert, from_option, load, store, load-ok, store-ok, Yields,
  Yields->>=, Yields-map, holds_below, holds_below→test,
}
use k210_os.Address.{word}
use k210_os.UserMemory.{copyout2}
use k210_os.FileTable.{File, filedup, fileclose, Released}
use k210_os.Task.{
  TaskControlBlock, TaskStatus, ready, zombie, is_zombie, Kernel, initproc, sleep_vec, put_tcb,
  set_status, acquire_tcb, release_tcb, own_lock, sleep, schedule, wakeup_fromsv,
}

-- The `while` of exit: the children go to INITPROC, one by one.
unfoldable pub give_away : Kernel → List ℕ → Kernel
give_away k [] = k
give_away k (c ∷ cs) =
    let k1 : Kernel = put_tcb k c (record (k.tcb c) { parent = initproc }) in
    let init : TaskControlBlock = k1.tcb initproc in
    give_away (put_tcb k1 initproc (record init { child = init.child ++ c ∷ [] })) cs

-- The `for` of exit on the descriptors that are left: the table, and what the calls of fileclose go
-- on to.
unfoldable pub close_files : List File → List (Option ℕ) → Outcome (List Released × List File)
close_files t [] = ok ([], t)
close_files t (none ∷ fds) = close_files t fds
close_files t (some f ∷ fds) = do
  (r, t1) ← fileclose t f
  (rs, t2) ← close_files t1 fds
  ok (r ∷ rs, t2)

-- The part of exit under INITPROC's lock: its `while` empties the list of children.
unfoldable pub reparent : Kernel → ℕ → Outcome Kernel
reparent k task = do
  k1 ← acquire_tcb k initproc
  let childless : Kernel = put_tcb k1 task (record (k1.tcb task) { child = [] })
  release_tcb (give_away childless (k1.tcb task).child) initproc

unfoldable pub close_ofile : Kernel → ℕ → Outcome (List Released × Kernel)
close_ofile k task = do
  let fds : List (Option ℕ) = (k.tcb task).ofile
  (rs, t) ← close_files k.ftable (drop 3 fds)
  let closed : List (Option ℕ) = take 3 fds ++ replicate (length (drop 3 fds)) none
  ok (rs, record (put_tcb k task (record (k.tcb task) { ofile = closed })) { ftable = t })

-- What exit leaves to the pipes and the volume: what its calls of fileclose go on to, and the
-- directory that it puts.
pub record Left : Type 0 where
  pub files : List Released
  pub cwd : ℕ

unfoldable pub set_zombie : Kernel → ℕ → ℕ → Kernel
set_zombie k task exit_code =
    put_tcb k task (record (k.tcb task) { task_status = zombie; exit_code = exit_code % 2 ^ 32 })

unfoldable pub exit_current_and_run_next : Kernel → ℕ → Outcome (Left × Kernel)
exit_current_and_run_next k exit_code = do
  let task : ℕ = k.current
  let lock_task : Outcome Kernel = acquire_tcb k task
  k1 ← (if task == initproc then panic else lock_task)
  k2 ← reparent (set_zombie k1 task exit_code) task
  (rs, k3) ← close_ofile k2 task
  k4 ← release_tcb k3 task
  let left : Left = record { files = rs; cwd = (k4.tcb task).cwd }
  ok (left, schedule (wakeup_fromsv k4 (k4.tcb task).parent))

-- The bytes of an int32_t.
unfoldable pub bytes32 : ℕ → List ℕ
bytes32 n = n % 256 ∷ n / 256 % 256 ∷ n / 2 ^ 16 % 256 ∷ n / 2 ^ 24 % 256 ∷ []

-- What a scan of the children comes to: the value that waitpid returns, or the flag.
pub data Scan : Type 0 where
  returned : ℕ → Kernel → Scan
  scanned : Bool → Kernel → Scan

unfoldable pub remove_child : Kernel → ℕ → List ℕ → Kernel
remove_child k p cs = put_tcb k p (record (k.tcb p) { child = cs })

-- The address is NULL, or copyout2 writes the code to it; none for -1.
unfoldable pub write_code : Kernel → ℕ → ℕ → ℕ → Outcome (Option Kernel)
write_code k p zero code = ok (some k)
write_code k p addr code =
    copyout2 k.memory (k.tcb p).root (k.tcb p).base_size addr (bytes32 code) >>= λ r. elim r [
      | none ↦ ok none
      | some m ↦ ok (some (record k { memory = m }))
    ]

-- The case of a zombie `c`, whose lock is held; `others` are the other children of `p`.
unfoldable pub reap : Kernel → ℕ → ℕ → ℕ → List ℕ → Outcome Scan
reap k p c addr others = do
  let code : ℕ = (k.tcb c).exit_code * 2 ^ 8 % 2 ^ 32
  let k1 : Kernel = put_tcb k c (record (k.tcb c) { exit_code = code })
  written ← write_code k1 p addr code
  let unlock : Kernel → ℕ → Outcome Scan =
      λ k' r. (release_tcb k' p >>= λ k2. release_tcb k2 c) >>= λ k3. ok (returned r k3)
  elim written [
    | none ↦ unlock k1 (word - 1)
    | some k' ↦ unlock (remove_child k' p others) (k'.tcb c).pid
  ]

-- `pid == -1 || pid == c->pid`
abbrev pub wanted : ℕ → ℕ → Bool
wanted pid cpid = pid == word - 1 || pid == cpid

-- The inner `while` of waitpid on the children that are left, behind `met`.
unfoldable pub scan_children : Kernel → ℕ → ℕ → ℕ → Bool → List ℕ → List ℕ → Outcome Scan
scan_children k p pid addr flag met [] = ok (scanned flag k)
scan_children k p pid addr flag met (c ∷ cs) = do
  k1 ← acquire_tcb k c
  let hit : Bool = wanted pid (k1.tcb c).pid
  let reaped : Outcome Scan = reap k1 p c addr (met ++ cs)
  let rest : Outcome Scan =
      (release_tcb k1 c >>= λ k2. scan_children k2 p pid addr (flag || hit) (met ++ c ∷ []) cs)
  if hit && is_zombie (k1.tcb c).task_status then reaped else rest

-- One round of the outer `while`: waitpid returns a value, or its task is asleep in sleep_vec and
-- the next round starts with this flag.
pub data Waited : Type 0 where
  returns : ℕ → Kernel → Waited
  asleep : Bool → Kernel → Waited

unfoldable pub end_round : Outcome Scan → ℕ → ℕ → Outcome Waited
end_round r p options = r >>= λ s. elim s [
  | returned v k ↦ ok (returns v k)
  | scanned flag k ↦
      let fails : Outcome Waited = (release_tcb k p >>= λ k'. ok (returns (word - 1) k')) in
      let sleeps : Outcome Waited = (sleep k sleep_vec own_lock >>= λ k'. ok (asleep flag k')) in
      let waits : Outcome Waited = if options == 0 then sleeps else ok (returns 0 k) in
      if not flag || is_zombie (k.tcb p).task_status then fails else waits
]

unfoldable pub wait_round : Kernel → ℕ → ℕ → ℕ → Bool → Outcome Waited
wait_round k pid addr options flag =
    let p : ℕ = k.current in
    end_round (scan_children k p pid addr flag [] (k.tcb p).child) p options

-- waitpid up to its first return or sleep
unfoldable pub waitpid : Kernel → ℕ → ℕ → ℕ → Outcome Waited
waitpid k pid addr options = acquire_tcb k k.current >>= λ k'. wait_round k' pid addr options false

unfoldable pub wait : Kernel → ℕ → Outcome Waited
wait k addr = waitpid k (word - 1) addr 0

-- The `for` of fork; a descriptor that the parent has not is not written in the child.
unfoldable pub dup_files :
    List File → List (Option ℕ) → List (Option ℕ) → Outcome (List (Option ℕ) × List File)
dup_files t (none ∷ fds) (old ∷ olds) = do (new, t') ← dup_files t fds olds; ok (old ∷ new, t')
dup_files t (some f ∷ fds) (old ∷ olds) = do
  t1 ← filedup t f
  (new, t2) ← dup_files t1 fds olds
  ok (some f ∷ new, t2)
dup_files t _ _ = ok ([], t)

-- fork with the control block of buddy_alloc, the pid of pid_alloc and the root table of
-- from_existed_user. The block keeps what it held before where fork does not write.
unfoldable pub fork : Kernel → ℕ → ℕ → ℕ → ℕ → Outcome Kernel
fork k parent ttcb pid root = do
  k1 ← acquire_tcb k parent
  let from : TaskControlBlock = k1.tcb parent
  let old : TaskControlBlock = k1.tcb ttcb
  (fds, t) ← dup_files k1.ftable from.ofile old.ofile
  let k2 : Kernel =
      put_tcb (record k1 { ftable = t }) ttcb
        (record old {
          pid = pid;
          tcb_lock = false;
          task_status = ready;
          base_size = from.base_size;
          root = root;
          exit_code = 0;
          parent = parent;
          child = [];
          cwd = from.cwd;
          ofile = fds;
        })
  release_tcb (remove_child k2 parent (from.child ++ ttcb ∷ [])) parent
