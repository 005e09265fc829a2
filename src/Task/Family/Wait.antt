-- ===== src/Task/Family/Wait.antt =====
-- What waitpid returns for a child that has exited, and what it leaves locked.
use k210_os.Prelude.{
  ℕ, zero, suc, ◌*◌, ◌%◌, ◌^◌, ◌≡◌, ◌≢◌, refl, ap, ◌∙◌, Bool, true, false, ◌&&◌, ◌||◌, some, List,
  [], ◌∷◌, ◌++◌, arith, ok, Yields,
}
use mathlib.Core.Path.{fun_ext}
use mathlib.Core.List.{append-nil, append_assoc}
use k210_os.PageTable.{Memory}
use k210_os.UserMemory.{copyout2}
use k210_os.Task.{TaskControlBlock, zombie, is_zombie, Kernel, put_tcb}
use k210_os.Task.Quiet.{Quiet, with_lock, acquire_tcb-eq, release_tcb-eq}
use k210_os.Task.Family.{
  bytes32, returned, remove_child, write_code, reap, wanted, scan_children, Waited, returns,
  end_round, wait_round, waitpid,
}

-- To take a free lock and to give it back is nothing.
relock :
    (k : Kernel) (t : ℕ) → (k.tcb t).tcb_lock ≡ false → with_lock (with_lock k t true) t false ≡ k
relock k t free = ap (λ f. record k { tcb = f }) (fun_ext λ u. ground (arith, free))

-- A child that waitpid passes by: its lock is free, and it is not asked for or has not exited.
pub record Passed (k : Kernel) (p pid : ℕ) (c : ℕ) : Type 0 where
  pub free : (k.tcb c).tcb_lock ≡ false
  pub no_hit : (wanted pid (k.tcb c).pid && is_zombie (k.tcb c).task_status) ≡ false

pub scan_children-Passed :
    (k : Kernel) (p pid addr c : ℕ) (flag : Bool) (met cs : List ℕ)
    → Passed k p pid c
    → scan_children k p pid addr flag met (c ∷ cs)
      ≡ scan_children k p pid addr (flag || wanted pid (k.tcb c).pid) (met ++ c ∷ []) cs
unfolding scan_children
scan_children-Passed k p pid addr c flag met cs h =
    let k1 : Kernel = with_lock k c true in
    let held : (k1.tcb c).tcb_lock ≡ true = ground arith in
    let same_pid : (k1.tcb c).pid ≡ (k.tcb c).pid = ground arith in
    let same_status : (k1.tcb c).task_status ≡ (k.tcb c).task_status = ground arith in
    rw
      (
        acquire_tcb-eq k c h.free,
        same_pid,
        same_status,
        h.no_hit,
        release_tcb-eq k1 c held,
        relock k c h.free,
      )
      refl

-- Every one of these children is passed by.
abbrev pub AllPassed : Kernel → ℕ → ℕ → List ℕ → Type 0
AllPassed k p pid [] = Unit
AllPassed k p pid (c ∷ cs) = Passed k p pid c × AllPassed k p pid cs

scan_children-reap :
    (k : Kernel) (p pid addr c : ℕ) (flag : Bool) (met before after : List ℕ)
    → AllPassed k p pid before
    → (k.tcb c).tcb_lock ≡ false
    → wanted pid (k.tcb c).pid ≡ true
    → (k.tcb c).task_status ≡ zombie
    → scan_children k p pid addr flag met (before ++ c ∷ after)
      ≡ reap (with_lock k c true) p c addr ((met ++ before) ++ after)
unfolding scan_children
scan_children-reap k p pid addr c flag met [] after all free hit z =
    let k1 : Kernel = with_lock k c true in
    let same_pid : (k1.tcb c).pid ≡ (k.tcb c).pid = ground arith in
    let same_status : (k1.tcb c).task_status ≡ zombie = ground (arith, z) in
    rw (append-nil met, acquire_tcb-eq k c free, same_pid, same_status, hit) refl
scan_children-reap k p pid addr c flag met (b ∷ before) after (here, all) free hit z =
    let flag' : Bool = flag || wanted pid (k.tcb b).pid in
    scan_children-Passed k p pid addr b flag met (before ++ c ∷ after) here
    ∙ (scan_children-reap k p pid addr c flag' (met ++ b ∷ []) before after all free hit z
        ∙ ap (λ l. reap (with_lock k c true) p c addr (l ++ after))
            (append_assoc met (b ∷ []) before))

-- The user's memory when the code is written: as it was with a NULL address, else what copyout2
-- makes of it.
pub data Written (mem : Memory) (b : TaskControlBlock) (code : ℕ) : ℕ → Memory → Type 0 where
  not_asked : Written mem b code 0 mem
  stored :
      {m : Memory} (n : ℕ)
      → copyout2 mem b.root b.base_size (suc n) (bytes32 code) ≡ ok (some m)
      → Written mem b code (suc n) m

-- the code of `c` in the bits 8 to 31
abbrev pub shifted : Kernel → ℕ → ℕ
shifted k c = (k.tcb c).exit_code * 2 ^ 8 % 2 ^ 32

-- What waitpid comes to for a child `c` that has exited: it returns the pid of `c`. The block of the
-- caller has lost `c` from its children, that of `c` holds the code shifted by 8 bits, and the locks
-- of both are free; all other blocks, the lists, the files and the other locks are as they were.
pub data Reaped (k : Kernel) (p c : ℕ) (others : List ℕ) (m : Memory) : Waited → Type 0 where
  reaped :
      {k' : Kernel} {v : ℕ}
      → v ≡ (k.tcb c).pid
      → k'.tcb p ≡ record (k.tcb p) { child = others; tcb_lock = false }
      → k'.tcb c ≡ record (k.tcb c) { exit_code = shifted k c; tcb_lock = false }
      → k'.memory ≡ m
      → k'.ftable ≡ k.ftable
      → k'.locked ≡ k.locked
      → Quiet k k'
      → ((t : ℕ) → t ≢ p → t ≢ c → k'.tcb t ≡ k.tcb t)
      → Reaped k p c others m (returns v k')

write_code-Written :
    (k : Kernel) (p code addr : ℕ) (m : Memory) (b : TaskControlBlock)
    → Written k.memory b code addr m
    → (k.tcb p).root ≡ b.root
    → (k.tcb p).base_size ≡ b.base_size
    → write_code k p addr code ≡ ok (some (record k { memory = m }))
unfolding write_code
write_code-Written k p code zero m b not_asked er es = refl
write_code-Written k p code (suc n) m b (stored n' e) er es = rw (er, es, e) refl

-- The stages of reap.
abbrev coded : Kernel → ℕ → Kernel
coded k c = put_tcb k c (record (k.tcb c) { exit_code = shifted k c })

abbrev removed : Kernel → ℕ → ℕ → List ℕ → Memory → Kernel
removed k p c others m =
    let k1 : Kernel = record (coded k c) { memory = m } in
    put_tcb k1 p (record (k1.tcb p) { child = others })

reap-eq :
    (k : Kernel) (p c addr : ℕ) (others : List ℕ) (m : Memory)
    → p ≢ c
    → (b : TaskControlBlock) → (k.tcb p).root ≡ b.root
    → (k.tcb p).base_size ≡ b.base_size
    → (k.tcb p).tcb_lock ≡ true
    → (k.tcb c).tcb_lock ≡ true
    → Written k.memory b (shifted k c) addr m
    → reap k p c addr others
      ≡ ok (returned (k.tcb c).pid (with_lock (with_lock (removed k p c others m) p false) c false))
unfolding reap remove_child
reap-eq k p c addr others m ne b er es held held' w =
    let k2 : Kernel = removed k p c others m in
    let k3 : Kernel = with_lock k2 p false in
    let e : (k2.tcb p).tcb_lock ≡ true = ground (arith, held) in
    let e' : (k3.tcb c).tcb_lock ≡ true = ground (arith, held', ne) in
    let same_pid : ((coded k c).tcb c).pid ≡ (k.tcb c).pid = ground arith in
    rw
      (
        write_code-Written (coded k c) p (shifted k c) addr m b w (ground (arith, er))
            (ground (arith, es)),
        release_tcb-eq k2 p e,
        release_tcb-eq k3 c e',
        same_pid,
      )
      refl

-- The block of the caller in the locked state that the scan sees.
abbrev locked_pair : Kernel → ℕ → ℕ → Kernel
locked_pair k p c = with_lock (with_lock k p true) c true

relocked_pair :
    (k : Kernel) (p c : ℕ) (others : List ℕ) (m : Memory)
    → p ≢ c
    → Reaped k p c others m (
        returns
          ((locked_pair k p c).tcb c).pid
          (with_lock (with_lock (removed (locked_pair k p c) p c others m) p false) c false))
relocked_pair k p c others m ne =
    reaped (ground arith) (ground (arith, ne)) (ground (arith, ne)) refl refl refl
      (record {
        ready_queue = refl;
        all_task = refl;
        waits = λ q. refl;
        current = refl;
        idle = refl;
        status = λ t. ground arith;
        linked = λ t. ground arith;
      })
      (λ t np nc. ground (arith, np, nc))

-- A running task with the exited child `c`, another task, among its children, who asks for any child or for the
-- pid of `c`, gets the pid of `c` from waitpid; the children before `c` are not to be returned, all
-- locks met are free and the code is written to memory as copyout2 does. `c` is no child any more
-- and its exit code is shifted to bits 8 to 31, as it is written; both locks are free, and all other
-- fields of both blocks, the other blocks, the lists of tasks, the files and the other locks are as
-- they were.
pub waitpid-Reaped :
    (k : Kernel) (pid addr options c : ℕ) (before after : List ℕ) (m : Memory)
    → (k.tcb k.current).child ≡ before ++ c ∷ after
    → k.current ≢ c
    → (k.tcb k.current).tcb_lock ≡ false
    → AllPassed (with_lock k k.current true) k.current pid before
    → (k.tcb c).tcb_lock ≡ false
    → wanted pid (k.tcb c).pid ≡ true
    → (k.tcb c).task_status ≡ zombie
    → Written k.memory (k.tcb k.current) (shifted k c) addr m
    → Yields (Reaped k k.current c (before ++ after) m) (waitpid k pid addr options)
unfolding waitpid wait_round end_round
waitpid-Reaped k pid addr options c before after m family ne free all c_free hit z w =
    let p : ℕ = k.current in
    let kp : Kernel = with_lock k p true in
    let kc : Kernel = locked_pair k p c in
    let same_family : (kp.tcb p).child ≡ before ++ c ∷ after = ground (arith, family) in
    let kp_free : (kp.tcb c).tcb_lock ≡ false = ground (arith, c_free, ne) in
    let kp_pid : (kp.tcb c).pid ≡ (k.tcb c).pid = ground arith in
    let kp_hit : wanted pid (kp.tcb c).pid ≡ true = rw kp_pid hit in
    let kp_z : (kp.tcb c).task_status ≡ zombie = ground (arith, z) in
    let held : (kc.tcb p).tcb_lock ≡ true = ground arith in
    let held' : (kc.tcb c).tcb_lock ≡ true = ground arith in
    let kc_code : shifted kc c ≡ shifted k c = ground arith in
    rw
      (
        acquire_tcb-eq k p free,
        same_family,
        scan_children-reap kp p pid addr c false [] before after all kp_free kp_hit kp_z,
        reap-eq kc p c addr (before ++ after) m ne (k.tcb p) (ground arith) (ground arith) held
            held' (rw kc_code w),
      )
      (relocked_pair k p c (before ++ after) m ne)
