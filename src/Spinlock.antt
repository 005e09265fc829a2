-- ===== src/Spinlock.antt =====
-- src/sync_spinlock.c: spinlocks, on any number of processors. acquire and release are cut at the
-- points where another processor may come in between: each part reads or writes the lock once.
pub mod Exclusion
mod Tests
use k210_os.Prelude.{
  ℕ, zero, suc, ◌+◌, ◌-◌, ◌*◌, ◌/◌, ◌%◌, ◌^◌, ◌<◌, ◌≤◌, ◌≡◌, ◌≢◌, ◌↔◌, ◌⊎◌, inl, inr, refl, sym, ap,
  ◌∙◌, min, max, Bool, true, false, not, ◌&&◌, ◌||◌, Option, none, some, List, [], ◌∷◌, ◌++◌, map,
  arith, ltb, leb, ◌==◌, if◌then◌else◌, lt→ltb, ltb→lt, ltb→le, leb→le, eq→==, ==→eq, Bool-cases,
  length, get_elem?, get_or, set, replicate, take, drop, length-append, length-set,
  length-replicate, get_elem?-eq-get_or, get_or-set, get_or-append, set-set, set-get_or, Outcome,
  ok, panic, fault, hang, ◌>>=◌, ◌>>◌, assert, from_option, load, store, load-ok, store-ok, Yields,
  Yields->>=, Yields-map, holds_below, holds_below→test,
}

-- The fields of `struct Processor` for push_off and pop_off, and whether interrupts are on.
pub record Cpu : Type 0 where
  pub irq : Bool
  pub depth_of_ir : ℕ
  pub ir_enable : Bool

unfoldable pub push_off : Cpu → Cpu
push_off c = record c {
  irq = false;
  ir_enable = if c.depth_of_ir == 0 then c.irq else c.ir_enable;
  depth_of_ir = c.depth_of_ir + 1;
}

unfoldable pub pop_off : Cpu → Outcome Cpu
pop_off c =
    if c.irq
    then panic
    else if ltb c.depth_of_ir 1
    then panic
    else ok
        (record c { depth_of_ir = c.depth_of_ir - 1; irq = c.depth_of_ir - 1 == 0 && c.ir_enable })

-- Where a processor is: outside; in the `while` of acquire; behind it; between acquire and
-- release; in release with `cpu` cleared.
pub data Phase : Type 0 where
  outside : Phase
  spinning : Phase
  entering : Phase
  inside : Phase
  leaving : Phase

-- `struct spinlock` and the processors that use it
pub record System : Type 0 where
  pub locked : ℕ
  pub owner : Option ℕ
  pub cpus : ℕ → Cpu
  pub phase : ℕ → Phase

unfoldable pub initlock : (ℕ → Cpu) → System
initlock cpus = record { locked = 0; owner = none; cpus = cpus; phase = λ i. outside }

abbrev pub put_cpu : System → ℕ → Cpu → System
put_cpu s me c = record s { cpus = λ i. if i == me then c else s.cpus i }

abbrev pub put_phase : System → ℕ → Phase → System
put_phase s me p = record s { phase = λ i. if i == me then p else s.phase i }

-- `lk->cpu == me`
abbrev pub is_owner : Option ℕ → ℕ → Bool
is_owner none me = false
is_owner (some i) me = i == me

unfoldable pub holding : System → ℕ → Bool
holding s me = not (s.locked == 0) && is_owner s.owner me

-- acquire up to its `while`
unfoldable pub acquire_start : System → ℕ → Outcome System
acquire_start s me =
    let s' : System = put_cpu s me (push_off (s.cpus me)) in
    if holding s' me then panic else ok (put_phase s' me spinning)

-- one `__sync_lock_test_and_set`
unfoldable pub acquire_swap : System → ℕ → System
acquire_swap s me =
    let s' : System = record s { locked = 1 } in
    if s.locked == 0 then put_phase s' me entering else s'

-- the end of acquire
unfoldable pub acquire_end : System → ℕ → System
acquire_end s me = put_phase (record s { owner = some me }) me inside

-- release up to `lk->cpu = 0`
unfoldable pub release_start : System → ℕ → Outcome System
release_start s me =
    if not (holding s me) then panic else ok (put_phase (record s { owner = none }) me leaving)

-- `__sync_lock_release` and pop_off
unfoldable pub release_end : System → ℕ → Outcome System
release_end s me =
    pop_off (s.cpus me) >>= λ c. ok (put_phase (put_cpu (record s { locked = 0 }) me c) me outside)

-- One step of one processor.
pub data Step (s : System) : System → Type 0 where
  starts : {s' : System} (me : ℕ) → s.phase me ≡ outside → acquire_start s me ≡ ok s' → Step s s'
  swaps : (me : ℕ) → s.phase me ≡ spinning → Step s (acquire_swap s me)
  enters : (me : ℕ) → s.phase me ≡ entering → Step s (acquire_end s me)
  leaves : {s' : System} (me : ℕ) → s.phase me ≡ inside → release_start s me ≡ ok s' → Step s s'
  frees : {s' : System} (me : ℕ) → s.phase me ≡ leaving → release_end s me ≡ ok s' → Step s s'

-- The states that steps lead to.
pub data Reachable (s : System) : System → Type 0 where
  start : Reachable s s
  then_step : {s' s2 : System} → Reachable s s' → Step s' s2 → Reachable s s2
