-- ===== src/MaxHeap/Counting.antt =====
-- How often a number stands among the first entries of an array.
use k210_os.Prelude.{
  ℕ, zero, suc, ◌+◌, ◌<◌, ◌≤◌, ◌≡◌, inl, inr, refl, List, [], ◌∷◌, arith, ◌==◌, if◌then◌else◌,
  Bool-cases, length, get_or, set,
}

-- 1 if the two are equal
abbrev pub one_if : ℕ → ℕ → ℕ
one_if v x = if v == x then 1 else 0

-- the entries of `a` below `n` that equal `v`
unfoldable pub count : ℕ → ℕ → List ℕ → ℕ
count v zero a = 0
count v (suc n) [] = 0
count v (suc n) (x ∷ a) = one_if v x + count v n a

-- A write trades the old entry for the new one.
pub count-set :
    (v n : ℕ) (a : List ℕ) (i x : ℕ)
    → i < n
    → i < length a
    → count v n (set a i x) + one_if v (get_or a i 0) ≡ count v n a + one_if v x
unfolding count
count-set v zero a i x h k = absurd (omega arith)
count-set v (suc n) [] i x h k = absurd (omega arith)
count-set v (suc n) (y ∷ a) zero x h k = omega arith
count-set v (suc n) (y ∷ a) (suc i) x h k =
    omega (arith, count-set v n a i x (omega arith) (omega arith))

-- A write at or above the bound does not count.
pub count-set_above : (v n : ℕ) (a : List ℕ) (i x : ℕ) → n ≤ i → count v n (set a i x) ≡ count v n a
unfolding count
count-set_above v zero a i x h = refl
count-set_above v (suc n) [] i x h = refl
count-set_above v (suc n) (y ∷ a) zero x h = absurd (omega arith)
count-set_above v (suc n) (y ∷ a) (suc i) x h =
    omega (arith, count-set_above v n a i x (omega arith))

pub count-suc :
    (v n : ℕ) (a : List ℕ)
    → n < length a
    → count v (suc n) a ≡ count v n a + one_if v (get_or a n 0)
unfolding count
count-suc v n [] h = absurd (omega arith)
count-suc v zero (x ∷ a) h = omega arith
count-suc v (suc n) (x ∷ a) h = omega (arith, count-suc v n a (omega arith))

pub count-pos :
    (v n : ℕ) (a : List ℕ) (i : ℕ) → i < n → i < length a → get_or a i 0 ≡ v → 0 < count v n a
unfolding count
count-pos v zero a i h k e = absurd (omega arith)
count-pos v (suc n) [] i h k e = absurd (omega arith)
count-pos v (suc n) (x ∷ a) zero h k e = ground arith
count-pos v (suc n) (x ∷ a) (suc i) h k e =
    omega (arith, count-pos v n a i (omega arith) (omega arith) e)

-- A number that is counted stands somewhere.
pub find_counted :
    (v n : ℕ) (a : List ℕ)
    → 0 < count v n a
    → (i : ℕ) × (i < n) × (i < length a) × (get_or a i 0 ≡ v)
unfolding count
find_counted v zero a h = absurd (omega arith)
find_counted v (suc n) [] h = absurd (omega arith)
find_counted v (suc n) (x ∷ a) h = elim (Bool-cases (v == x)) [
  | inl e ↦ (0, omega arith, omega arith, ground arith)
  | inr e ↦
      let (i, p, q, r) = find_counted v n a (ground arith) in (suc i, omega arith, omega arith, r)
]
