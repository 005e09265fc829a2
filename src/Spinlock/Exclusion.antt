-- ===== src/Spinlock/Exclusion.antt =====
-- One processor at a time is between acquire and release.
use k210_os.Prelude.{
  ℕ, ◌≡◌, ◌↔◌, inl, inr, refl, sym, ap, ◌∙◌, Bool, true, false, Option, none, some, arith, ◌==◌,
  if◌then◌else◌, ==→eq, Bool-cases, Outcome, ok, panic, fault, hang, ◌>>=◌,
}
use k210_os.Spinlock.{
  Cpu, push_off, pop_off, Phase, outside, spinning, entering, inside, leaving, System, initlock,
  put_cpu, put_phase, is_owner, holding, acquire_start, acquire_swap, acquire_end, release_start,
  release_end, Step, starts, swaps, enters, leaves, frees, Reachable, start, then_step,
}

-- the phases of a processor whose swap has brought it the lock
abbrev pub has_lock : Phase → Bool
has_lock outside = false
has_lock spinning = false
has_lock entering = true
has_lock inside = true
has_lock leaving = true

-- The word is 1 while a processor has the lock, and no other processor has it then; the owner is a
-- processor between acquire and release.
pub record IsExclusive (s : System) : Type 0 where
  pub taken : (i : ℕ) → has_lock (s.phase i) ≡ true → s.locked ≡ 1
  pub alone : (i j : ℕ) → has_lock (s.phase i) ≡ true → has_lock (s.phase j) ≡ true → i ≡ j
  pub owner : (i : ℕ) → s.phase i ≡ inside → s.owner ≡ some i
  pub owns : (i : ℕ) → s.owner ≡ some i → s.phase i ≡ inside

swap-IsExclusive :
    (s : System) (me : ℕ) → IsExclusive s → s.phase me ≡ spinning → IsExclusive (acquire_swap s me)
unfolding acquire_swap
swap-IsExclusive s me v at = elim (Bool-cases (s.locked == 0)) [
  | inl free ↦
      let unlocked : s.locked ≡ 0 = ==→eq s.locked 0 free in
      let nobody : (i : ℕ) → has_lock (s.phase i) ≡ false = λ i.
        elim (Bool-cases (has_lock (s.phase i))) [
          | inl h ↦ absurd (omega (arith, v.taken i h))
          | inr h ↦ h
        ] in
      rw (free, acquire_swap)
        (record {
          taken = λ i h. refl;
          alone = λ i j hi hj. ground (arith, nobody i, nobody j);
          owner = λ i h. ground (arith, v.owner i);
          owns = λ i h. ground (arith, v.owns i h, nobody i);
        })
  | inr busy ↦
      rw (busy, acquire_swap)
        (record { taken = λ i h. refl; alone = v.alone; owner = v.owner; owns = v.owns })
]

-- what holds of the result of a run that returns one
abbrev IfOk : (System → Type 0) → Outcome System → Type 0
IfOk P (ok s) = P s
IfOk P panic = true ≡ true
IfOk P fault = true ≡ true
IfOk P hang = true ≡ true

start-IsExclusive :
    (s : System) (me : ℕ)
    → IsExclusive s
    → s.phase me ≡ outside
    → IfOk IsExclusive (acquire_start s me)
unfolding acquire_start
start-IsExclusive s me v at = elim (Bool-cases (holding (put_cpu s me (push_off (s.cpus me))) me)) [
  | inl e ↦ rw e refl
  | inr e ↦ rw e (record {
    taken = λ i h. ground (arith, v.taken i);
    alone = λ i j hi hj. ground (arith, v.alone i j);
    owner = λ i h. ground (arith, v.owner i);
    owns = λ i h. ground (arith, v.owns i h);
  })
]

enter-IsExclusive :
    (s : System) (me : ℕ) → IsExclusive s → s.phase me ≡ entering → IsExclusive (acquire_end s me)
unfolding acquire_end
enter-IsExclusive s me v at =
    let mine : has_lock (s.phase me) ≡ true = rw at refl in
    record {
      taken = λ i h. v.taken me mine;
      alone = λ i j hi hj. ground (arith, v.alone i j, v.alone i me, v.alone me j);
      owner = λ i h. ap some (only i h);
      owns =
          λ i h. (let same : me ≡ i = cc in let e : (i == me) ≡ true = ground arith in rw e refl);
    }
  where
    only : (i : ℕ) → (if i == me then inside else s.phase i) ≡ inside → me ≡ i
    only i h = elim (Bool-cases (i == me)) [
      | inl e ↦ sym (==→eq i me e)
      | inr e ↦
          let there : s.phase i ≡ inside = rw e at h in v.alone me i (rw at refl) (rw there refl)
    ]

leave-IsExclusive :
    (s : System) (me : ℕ)
    → IsExclusive s
    → s.phase me ≡ inside
    → IfOk IsExclusive (release_start s me)
unfolding release_start
leave-IsExclusive s me v at =
    let mine : has_lock (s.phase me) ≡ true = rw at refl in
    elim (Bool-cases (holding s me)) [
      | inl e ↦ rw e (record {
        taken = λ i h. v.taken me mine;
        alone = λ i j hi hj. ground (arith, v.alone i j, v.alone i me, v.alone me j);
        owner = λ i h. absurd (none_left i h);
        owns = λ i h. cc;
      })
      | inr e ↦ rw e refl
    ]
  where
    none_left : (i : ℕ) → (if i == me then leaving else s.phase i) ≡ inside → ⊥
    none_left i h = elim (Bool-cases (i == me)) [
      | inl e ↦ let clash : leaving ≡ inside = rw e at h in cc
      | inr e ↦
          let there : s.phase i ≡ inside = rw e at h in
          let same : i ≡ me = v.alone i me (rw there refl) (rw at refl) in ground (arith, e, same)
    ]

free-IsExclusive :
    (s : System) (me : ℕ)
    → IsExclusive s
    → s.phase me ≡ leaving
    → IfOk IsExclusive (release_end s me)
unfolding release_end
free-IsExclusive s me v at =
    let mine : has_lock (s.phase me) ≡ true = rw at refl in freed (pop_off (s.cpus me))
  where
    nobody : (i : ℕ) → has_lock (if i == me then outside else s.phase i) ≡ false
    nobody i = elim (Bool-cases (i == me)) [
      | inl e ↦ rw e refl
      | inr e ↦ rw e (elim (Bool-cases (has_lock (s.phase i))) [
        | inl h ↦
            let same : i ≡ me = v.alone i me h (rw at refl) in absurd (ground (arith, e, same))
        | inr h ↦ h
      ])
    ]

    freed :
        (r : Outcome Cpu)
        → IfOk IsExclusive
            (r >>= λ c. ok (put_phase (put_cpu (record s { locked = 0 }) me c) me outside))
    freed (ok c) = record {
      taken = λ i h. absurd (let clash : true ≡ false = sym h ∙ nobody i in cc);
      alone = λ i j hi hj. ground (arith, v.alone i j, v.alone i me, v.alone j me);
      owner = λ i h. ground (arith, v.owner i);
      owns = λ i h. elim (Bool-cases (i == me)) [
        | inl e ↦
            let clash : leaving ≡ inside =
              sym at ∙ (ap s.phase (sym (==→eq i me e)) ∙ v.owns i h) in
            cc
        | inr e ↦ rw e (v.owns i h)
      ];
    }
    freed panic = refl
    freed fault = refl
    freed hang = refl

Step-IsExclusive : {s s' : System} → IsExclusive s → Step s s' → IsExclusive s'
Step-IsExclusive {s} v (starts me at e) = rw e at (start-IsExclusive s me v at)
Step-IsExclusive {s} v (swaps me at) = swap-IsExclusive s me v at
Step-IsExclusive {s} v (enters me at) = enter-IsExclusive s me v at
Step-IsExclusive {s} v (leaves me at e) = rw e at (leave-IsExclusive s me v at)
Step-IsExclusive {s} v (frees me at e) = rw e at (free-IsExclusive s me v at)

initlock-IsExclusive : (cpus : ℕ → Cpu) → IsExclusive (initlock cpus)
unfolding initlock
initlock-IsExclusive cpus = record {
  taken = λ i h. cc;
  alone = λ i j hi hj. cc;
  owner = λ i h. cc;
  owns = λ i h. cc;
}

-- Every state that processors reach from an initialised lock is one in which at most one of them
-- has the lock.
pub Reachable-IsExclusive : {s s' : System} → IsExclusive s → Reachable s s' → IsExclusive s'
Reachable-IsExclusive v start = v
Reachable-IsExclusive v (then_step r t) = Step-IsExclusive (Reachable-IsExclusive v r) t

-- However the steps of any number of processors interleave after initlock, two that are both
-- between acquire and release are the same one.
pub inside-same :
    (cpus : ℕ → Cpu) (s : System) (i j : ℕ)
    → Reachable (initlock cpus) s
    → s.phase i ≡ inside
    → s.phase j ≡ inside
    → i ≡ j
inside-same cpus s i j r hi hj =
    (Reachable-IsExclusive (initlock-IsExclusive cpus) r).alone i j (rw hi refl) (rw hj refl)

-- In every state that steps lead to after initlock, holding is true of a processor just while it
-- is between acquire and release. So release does not panic there, and acquire panics just for a
-- processor that is there already.
pub holding-inside :
    (cpus : ℕ → Cpu) (s : System) (me : ℕ)
    → Reachable (initlock cpus) s
    → (holding s me ≡ true) ↔ (s.phase me ≡ inside)
unfolding holding
holding-inside cpus s me r =
    let v = Reachable-IsExclusive (initlock-IsExclusive cpus) r in
    (
      λ h. v.owns me (named s.owner me (ground arith)),
      λ h.
          (let one : s.locked ≡ 1 = v.taken me (rw h refl) in
            rw (one, v.owner me h) (ground arith)),
    )
  where
    named : (o : Option ℕ) (i : ℕ) → is_owner o i ≡ true → o ≡ some i
    named none i e = cc
    named (some k) i e = ap some (==→eq k i e)
