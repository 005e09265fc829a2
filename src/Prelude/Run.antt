-- ===== src/Prelude/Run.antt =====
-- What a kernel routine comes to: a value, a call of `panic` (or a failed `assert`), an access
-- outside an array, or a wait that never ends.
use Prim.Native.Nat.{ℕ, ◌<◌}
use mathlib.Core.Path.{◌≡◌}
use mathlib.Core.Bool.{Bool, true, false}
use mathlib.Core.List.{List}
use mathlib.Core.Option.{Option, none, some}
use k210_os.Prelude.Lists.{length, get_elem?, get_or, set, get_elem?-eq-get_or}
use k210_os.Prelude.Tests.{ltb, if◌then◌else◌, lt→ltb}

pub data Outcome {ℓ} (A : Type ℓ) : Type ℓ where
  ok : A → Outcome A
  panic : Outcome A
  fault : Outcome A
  hang : Outcome A

infixl 5 ◌>>=◌ ◌>>◌
abbrev pub ◌>>=◌ {ℓ κ} : {A : Type ℓ} {B : Type κ} → Outcome A → (A → Outcome B) → Outcome B
ok a >>= f = f a
panic >>= f = panic
fault >>= f = fault
hang >>= f = hang

abbrev pub ◌>>◌ {ℓ} : {B : Type ℓ} → Outcome (Unit {0}) → Outcome B → Outcome B
m >> k = m >>= λ _. k

-- assert.h: a false condition ends in `panic`
abbrev pub assert : Bool → Outcome (Unit {0})
assert true = ok tt
assert false = panic

abbrev pub from_option {ℓ} : {A : Type ℓ} → Option A → Outcome A
from_option none = fault
from_option (some a) = ok a

module _ {ℓ} {A : Type ℓ} where
  -- `xs[i]` as a value
  unfoldable pub load : List A → ℕ → Outcome A
  load xs i = from_option (get_elem? xs i)

  -- `xs[i] = v`
  unfoldable pub store : List A → ℕ → A → Outcome (List A)
  store xs i v = if ltb i (length xs) then ok (set xs i v) else fault

  pub load-ok : (xs : List A) (i : ℕ) (d : A) → i < length xs → load xs i ≡ ok (get_or xs i d)
  unfolding load
  load-ok xs i d h = rw (get_elem?-eq-get_or xs i d h)

  pub store-ok : (xs : List A) (i : ℕ) (v : A) → i < length xs → store xs i v ≡ ok (set xs i v)
  unfolding store
  store-ok xs i v h = rw (lt→ltb i (length xs) h)

-- The run ends in a value, and `P` holds of it.
abbrev pub Yields {ℓ} : {A : Type ℓ} → (A → Type 0) → Outcome A → Type 0
Yields P (ok a) = P a
Yields P panic = ⊥
Yields P fault = ⊥
Yields P hang = ⊥

pub Yields->>= {ℓ κ} :
    {A : Type ℓ} {B : Type κ} (P : A → Type 0) (Q : B → Type 0) (m : Outcome A) (f : A → Outcome B)
    → Yields P m
    → ((a : A) → P a → Yields Q (f a))
    → Yields Q (m >>= f)
Yields->>= P Q (ok a) f p k = k a p
Yields->>= P Q panic f p k = absurd p
Yields->>= P Q fault f p k = absurd p
Yields->>= P Q hang f p k = absurd p

pub Yields-map {ℓ} :
    {A : Type ℓ} (P Q : A → Type 0) (m : Outcome A)
    → ((a : A) → P a → Q a)
    → Yields P m
    → Yields Q m
Yields-map P Q (ok a) k p = k a p
Yields-map P Q panic k p = absurd p
Yields-map P Q fault k p = absurd p
Yields-map P Q hang k p = absurd p
