-- ===== src/Task/Family/Held.antt =====
-- The locks that waitpid leaves held, and what panics for it.
use k210_os.Prelude.{
  ℕ, ◌≡◌, ◌≢◌, refl, ap, ◌∙◌, Bool, true, false, ◌||◌, List, [], ◌∷◌, ◌++◌, arith, ◌==◌, ok, panic,
  Yields,
}
use k210_os.Task.{
  put_queue, set_linked, set_status, running, sleeping, Kernel, initproc, sleep_vec, acquire_tcb,
  change_lock, sleep, schedule, run, task_fetch, refill, dispatch, suspend_current_and_run_next,
}
use k210_os.Task.Quiet.{with_lock, acquire_tcb-eq}
use k210_os.Task.Family.{
  scanned, wanted, scan_children, Waited, returns, asleep, end_round, wait_round, waitpid,
  set_zombie, reparent, exit_current_and_run_next,
}
use k210_os.Task.Family.Wait.{AllPassed, scan_children-Passed}

-- Whether one of these children is asked for.
unfoldable pub any_wanted : Kernel → ℕ → List ℕ → Bool
any_wanted k pid [] = false
any_wanted k pid (c ∷ cs) = wanted pid (k.tcb c).pid || any_wanted k pid cs

or_assoc : (a b c : Bool) → ((a || b) || c) ≡ (a || (b || c))
or_assoc true b c = refl
or_assoc false b c = refl

or_false : (a : Bool) → (a || false) ≡ a
or_false true = refl
or_false false = refl

scan_children-scanned :
    (k : Kernel) (p pid addr : ℕ) (flag : Bool) (met cs : List ℕ)
    → AllPassed k p pid cs
    → scan_children k p pid addr flag met cs ≡ ok (scanned (flag || any_wanted k pid cs) k)
unfolding scan_children any_wanted
scan_children-scanned k p pid addr flag met [] all = rw (or_false flag) refl
scan_children-scanned k p pid addr flag met (c ∷ cs) (here, all) =
    let hit : Bool = wanted pid (k.tcb c).pid in
    scan_children-Passed k p pid addr c flag met cs here
    ∙ (scan_children-scanned k p pid addr (flag || hit) (met ++ c ∷ []) cs all
        ∙ ap (λ b. ok (scanned b k)) (or_assoc flag hit (any_wanted k pid cs)))

-- A waitpid for children that run: nobody holds the locks of the caller and of its children, none
-- of the children that are asked for has exited, and there is one.
pub record Waits (k : Kernel) (pid : ℕ) : Type 0 where
  pub free : (k.tcb k.current).tcb_lock ≡ false
  pub children : AllPassed (with_lock k k.current true) k.current pid (k.tcb k.current).child
  pub asked : any_wanted (with_lock k k.current true) pid (k.tcb k.current).child ≡ true
  pub is_running : (k.tcb k.current).task_status ≡ running

wait_round-scanned :
    (k : Kernel) (pid addr options : ℕ)
    → Waits k pid
    → waitpid k pid addr options
      ≡ end_round (ok (scanned true (with_lock k k.current true))) k.current options
unfolding waitpid wait_round
wait_round-scanned k pid addr options h =
    let k1 : Kernel = with_lock k k.current true in
    let family : (k1.tcb k.current).child ≡ (k.tcb k.current).child = ground arith in
    rw
      (
        acquire_tcb-eq k k.current h.free,
        family,
        scan_children-scanned k1 k.current pid addr false [] (k.tcb k.current).child h.children,
        h.asked,
      )
      refl

-- A waitpid with an option, whose children that are asked for all run, returns 0 and leaves the
-- tcb_lock of its task held, so that the next yield of the task panics.
pub waitpid-suspend_panic :
    (k : Kernel) (pid addr options : ℕ)
    → Waits k pid
    → options ≢ 0
    → (waitpid k pid addr options ≡ ok (returns 0 (with_lock k k.current true)))
      × (suspend_current_and_run_next (with_lock k k.current true) ≡ panic)
unfolding end_round suspend_current_and_run_next acquire_tcb
waitpid-suspend_panic k pid addr options h some_option = (
  wait_round-scanned k pid addr options h ∙ ground (arith, h.is_running, some_option),
  ground arith,
)

reparent-panic :
    (k : Kernel) (task : ℕ) → (k.tcb initproc).tcb_lock ≡ true → reparent k task ≡ panic
unfolding reparent acquire_tcb
reparent-panic k task held = rw held refl

exit-panic :
    (k : Kernel) (code : ℕ)
    → (k.tcb initproc).tcb_lock ≡ true
    → exit_current_and_run_next k code ≡ panic
unfolding exit_current_and_run_next set_zombie acquire_tcb
exit-panic k code held = from (k.current == initproc) (k.tcb k.current).tcb_lock refl refl
  where
    from :
        (a b : Bool)
        → (k.current == initproc) ≡ a
        → (k.tcb k.current).tcb_lock ≡ b
        → exit_current_and_run_next k code ≡ panic
    from true b ea eb = rw ea refl
    from false true ea eb = rw (ea, eb) refl
    from false false ea eb =
        let k1 : Kernel = set_zombie (with_lock k k.current true) k.current code in
        let still : (k1.tcb initproc).tcb_lock ≡ true = ground (arith, held) in
        rw (ea, acquire_tcb-eq k k.current eb, reparent-panic k1 k.current still) refl

run_init_lock : (k : Kernel) → ((run k).tcb initproc).tcb_lock ≡ (k.tcb initproc).tcb_lock
unfolding run task_fetch refill dispatch
run_init_lock k = ground arith

-- INITPROC is asleep, and whoever runs next cannot exit.
pub data NobodyExits : Waited → Type 0 where
  nobody_exits :
      {k' : Kernel} (flag : Bool)
      → (k'.tcb initproc).task_status ≡ sleeping
      → ((code : ℕ) → exit_current_and_run_next (run k') code ≡ panic)
      → NobodyExits (asleep flag k')

-- The caller asleep in sleep_vec with its lock held.
abbrev fallen : Kernel → Kernel
fallen k =
    let k1 : Kernel = with_lock k k.current true in
    let k2 : Kernel =
      put_queue (set_linked k1 k.current true) sleep_vec (k1.waits sleep_vec ++ k.current ∷ []) in
    record (set_status k2 k.current sleeping) { idle = true }

-- INITPROC in waitpid without an option, whose children that are asked for all run, falls asleep
-- with its tcb_lock held; then an exit of the task that runs next, a child too, panics.
pub waitpid-NobodyExits :
    (k : Kernel) (pid addr : ℕ)
    → Waits k pid
    → k.current ≡ initproc
    → (k.tcb k.current).linked ≡ false
    → Yields NobodyExits (waitpid k pid addr 0)
unfolding end_round sleep change_lock schedule
waitpid-NobodyExits k pid addr h me off =
    let k1 : Kernel = fallen k in
    let held : (k1.tcb initproc).tcb_lock ≡ true = ground (arith, me) in
    let falls : waitpid k pid addr 0 ≡ ok (asleep true k1) =
      wait_round-scanned k pid addr 0 h ∙ ground (arith, h.is_running, off) in
    rw falls (
      nobody_exits true (ground (arith, me))
        (λ code. exit-panic (run k1) code (run_init_lock k1 ∙ held)))
