-- ===== src/Task/Turns.antt =====
-- Round robin: how long a ready task waits for the processor.
use k210_os.Prelude.{
  ℕ, zero, suc, ◌<◌, ◌≡◌, refl, sym, ap, ◌∙◌, true, false, List, [], ◌∷◌, ◌++◌, arith, length,
  Outcome, ok, ◌>>=◌, Yields, Yields->>=, Yields-map,
}
use mathlib.Core.List.{append-nil, append_assoc}
use k210_os.Task.{
  ready, Kernel, set_status, task_add, task_fetch, refill, dispatch, run, schedule,
  suspend_current_and_run_next,
}
use k210_os.Task.Queues.{occurs}
use k210_os.Task.Quiet.{with_lock, acquire_tcb-eq, release_tcb-eq}
use k210_os.Task.Running.{run_next}

-- Rounds in which the task that gets the processor yields.
unfoldable pub rounds : ℕ → Kernel → Outcome Kernel
rounds zero k = ok k
rounds (suc n) k = suspend_current_and_run_next (run k) >>= λ k'. rounds n k'

record Rotated (k : Kernel) (l : List ℕ) (k' : Kernel) : Type 0 where
  queue : k'.ready_queue ≡ l
  locks : (t : ℕ) → (k'.tcb t).tcb_lock ≡ (k.tcb t).tcb_lock

-- What the first task gets.
record Got (k : Kernel) (x : ℕ) (l : List ℕ) (k' : Kernel) : Type 0 where
  queue : k'.ready_queue ≡ l
  locks : (t : ℕ) → (k'.tcb t).tcb_lock ≡ (k.tcb t).tcb_lock
  current : k'.current ≡ x
  busy : k'.idle ≡ false

run-Got : (k : Kernel) (x y : ℕ) (l : List ℕ) → k.ready_queue ≡ x ∷ y ∷ l → Got k x (y ∷ l) (run k)
unfolding dispatch refill task_fetch
run-Got k x y l e = rw (run_next k x (y ∷ l) e) (record {
  queue = ground (arith, e);
  locks = λ t. ground (arith, e);
  current = refl;
  busy = refl;
})

round-Rotated :
    (k : Kernel) (x y : ℕ) (l : List ℕ)
    → k.ready_queue ≡ x ∷ y ∷ l
    → (k.tcb x).tcb_lock ≡ false
    → Yields (Rotated k (y ∷ l ++ x ∷ [])) (suspend_current_and_run_next (run k))
unfolding suspend_current_and_run_next task_add schedule
round-Rotated k x y l e free =
    let k0 : Kernel = run k in
    let g : Got k x (y ∷ l) k0 = run-Got k x y l e in
    let k1 : Kernel = set_status (with_lock k0 k0.current true) k0.current ready in
    let free' : (k0.tcb k0.current).tcb_lock ≡ false = g.locks k0.current ∙ (rw g.current free) in
    let held : (k1.tcb k0.current).tcb_lock ≡ true = ground arith in
    rw (acquire_tcb-eq k0 k0.current free', release_tcb-eq k1 k0.current held)
      (record {
        queue = ground (arith, g.queue, g.current);
        locks = λ t. ground (arith, g.locks t, free');
      })

run-current :
    (k : Kernel) (x : ℕ) (l : List ℕ)
    → k.ready_queue ≡ x ∷ l
    → ((run k).current ≡ x) × ((run k).idle ≡ false)
unfolding dispatch
run-current k x l e = rw (run_next k x l e) (refl, refl)

-- A list that is not empty, taken apart.
abbrev Parts : List ℕ → Type 0
Parts l = (y : ℕ) × (rest : List ℕ) × (l ≡ y ∷ rest)

append_Parts : (xs : List ℕ) (p : ℕ) (ys : List ℕ) → Parts (xs ++ p ∷ ys)
append_Parts [] p ys = (p, ys, refl)
append_Parts (x ∷ xs) p ys = (x, xs ++ p ∷ ys, refl)

abbrev pub Reached : ℕ → List ℕ → Kernel → Type 0
Reached p l k = (k.ready_queue ≡ p ∷ l) × ((run k).current ≡ p) × ((run k).idle ≡ false)

-- In rounds in which the tasks before it yield, the task at a position of the ready queue gets the
-- processor in the round of that position, with the queue turned by as much: behind `xs` in the
-- queue, it runs after `length xs` rounds. The locks of the tasks before it are not held.
pub rounds-reach :
    (k : Kernel) (p : ℕ) (xs ys : List ℕ)
    → k.ready_queue ≡ xs ++ p ∷ ys
    → ((t : ℕ) → 0 < occurs t xs → (k.tcb t).tcb_lock ≡ false)
    → Yields (Reached p (ys ++ xs)) (rounds (length xs) k)
unfolding rounds occurs
rounds-reach k p [] ys e free =
    let (now, busy) = run-current k p ys e in rw (append-nil ys) (e, now, busy)
rounds-reach k p (x ∷ xs) ys e free =
    let (y, l, parts) = append_Parts xs p ys in
    let front : k.ready_queue ≡ x ∷ y ∷ l = e ∙ ap (◌∷◌ x) parts in
    Yields->>= (Rotated k (y ∷ l ++ x ∷ [])) (Reached p (ys ++ x ∷ xs)) _ (rounds (length xs))
      (round-Rotated k x y l front (free x (ground arith)))
      λ k' r.
        let turned : k'.ready_queue ≡ xs ++ p ∷ (ys ++ x ∷ []) =
          r.queue ∙ (ap (λ m. m ++ x ∷ []) (sym parts) ∙ append_assoc xs (p ∷ ys) (x ∷ [])) in
        Yields-map (Reached p ((ys ++ x ∷ []) ++ xs)) (Reached p (ys ++ x ∷ xs))
          (rounds (length xs) k')
          (λ k2 h. (h.0 ∙ ap (◌∷◌ p) (append_assoc ys (x ∷ []) xs), h.1, h.2))
          (rounds-reach k' p xs (ys ++ x ∷ []) turned
            (λ t lt. r.locks t ∙ free t (ground (arith, lt))))
