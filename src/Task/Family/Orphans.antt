-- ===== src/Task/Family/Orphans.antt =====
-- The part of exit that gives the children to INITPROC.
use k210_os.Prelude.{
  ℕ, ◌≡◌, ◌≢◌, refl, ◌∙◌, true, false, List, [], ◌∷◌, ◌++◌, arith, ◌==◌, if◌then◌else◌, Yields,
}
use mathlib.Core.List.{append-nil, append_assoc}
use k210_os.ElemList.Queue.{mem}
use k210_os.Task.{TaskControlBlock, Kernel, initproc, put_tcb}
use k210_os.Task.Quiet.{
  Quiet, Quiet-refl, Quiet-trans, put_tcb-Quiet, with_lock-Quiet, with_lock, acquire_tcb-eq,
  release_tcb-eq,
}
use k210_os.Task.Family.{give_away, reparent}

-- A control block when the tasks `cs` were given away.
abbrev given : Kernel → List ℕ → ℕ → TaskControlBlock
given k cs t = record (k.tcb t) {
  parent = if mem t cs then initproc else (k.tcb t).parent;
  child = if t == initproc then (k.tcb t).child ++ cs else (k.tcb t).child;
}

give_away-given : (k : Kernel) (cs : List ℕ) (t : ℕ) → (give_away k cs).tcb t ≡ given k cs t
unfolding give_away mem
give_away-given k [] t = ground (arith, append-nil (k.tcb t).child)
give_away-given k (c ∷ cs) t =
    let k1 : Kernel = put_tcb k c (record (k.tcb c) { parent = initproc }) in
    let init : TaskControlBlock = k1.tcb initproc in
    let k2 : Kernel = put_tcb k1 initproc (record init { child = init.child ++ c ∷ [] }) in
    give_away-given k2 cs t ∙ ground (arith, append_assoc (k.tcb t).child (c ∷ []) cs)

give_away-Quiet : (k : Kernel) (cs : List ℕ) → Quiet k (give_away k cs)
unfolding give_away
give_away-Quiet k [] = Quiet-refl k
give_away-Quiet k (c ∷ cs) =
    let k1 : Kernel = put_tcb k c (record (k.tcb c) { parent = initproc }) in
    let init : TaskControlBlock = k1.tcb initproc in
    let k2 : Kernel = put_tcb k1 initproc (record init { child = init.child ++ c ∷ [] }) in
    let q1 : Quiet k k1 = put_tcb-Quiet k c (record (k.tcb c) { parent = initproc }) refl refl in
    let q2 : Quiet k1 k2 =
      put_tcb-Quiet k1 initproc (record init { child = init.child ++ c ∷ [] }) refl refl in
    Quiet-trans (Quiet-trans q1 q2) (give_away-Quiet k2 cs)

give_away-ftable : (k : Kernel) (cs : List ℕ) → (give_away k cs).ftable ≡ k.ftable
unfolding give_away
give_away-ftable k [] = refl
give_away-ftable k (c ∷ cs) =
    let k1 : Kernel = put_tcb k c (record (k.tcb c) { parent = initproc }) in
    let init : TaskControlBlock = k1.tcb initproc in
    give_away-ftable (put_tcb k1 initproc (record init { child = init.child ++ c ∷ [] })) cs

-- A control block when `task` has given its children away.
abbrev pub moved : Kernel → ℕ → ℕ → TaskControlBlock
moved k task t =
    let mine : List ℕ = (k.tcb task).child in
    record (k.tcb t) {
      parent = if mem t mine then initproc else (k.tcb t).parent;
      child =
          if t == initproc
          then (k.tcb t).child ++ mine
          else if t == task
          then []
          else (k.tcb t).child;
    }

pub record Reparented (k : Kernel) (task : ℕ) (k' : Kernel) : Type 0 where
  pub quiet : Quiet k k'
  pub blocks : (t : ℕ) → k'.tcb t ≡ moved k task t
  pub ftable : k'.ftable ≡ k.ftable

pub reparent-Reparented :
    (k : Kernel) (task : ℕ)
    → task ≢ initproc
    → (k.tcb initproc).tcb_lock ≡ false
    → Yields (Reparented k task) (reparent k task)
unfolding reparent
reparent-Reparented k task ne free =
    let k1 : Kernel = with_lock k initproc true in
    let mine : List ℕ = (k1.tcb task).child in
    let k2 : Kernel = put_tcb k1 task (record (k1.tcb task) { child = [] }) in
    let k3 : Kernel = give_away k2 mine in
    let at : (t : ℕ) → k3.tcb t ≡ given k2 mine t = give_away-given k2 mine in
    let held : (k3.tcb initproc).tcb_lock ≡ true = ground (arith, at initproc) in
    rw (acquire_tcb-eq k initproc free, release_tcb-eq k3 initproc held)
      (record {
        quiet =
            Quiet-trans
              (Quiet-trans (with_lock-Quiet k initproc true) (
                Quiet-trans (put_tcb-Quiet k1 task (record (k1.tcb task) { child = [] }) refl refl)
                  (give_away-Quiet k2 mine)))
              (with_lock-Quiet k3 initproc false);
        blocks = λ t. ground (arith, at t, at initproc, free);
        ftable = give_away-ftable k2 mine;
      })
