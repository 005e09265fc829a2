-- ===== src/Fat32/Name/Legal.antt =====
-- formatname leaves a name that it has formatted as it is.
use k210_os.Prelude.{
  ℕ, ◌≡◌, ◌⊎◌, inl, inr, refl, true, false, ◌||◌, some, List, [], ◌∷◌, arith, ltb, ◌==◌, Bool-cases,
}
use k210_os.Fat32.Name.{has_char, illegal, skip_head, is_legal, cut_tail, formatname}

-- The name is empty, or begins with a byte that skip_head keeps.
data Trimmed : List ℕ → Type 0 where
  empty : Trimmed []
  kept : (c : ℕ) (s : List ℕ) → (c == 32 || c == 46) ≡ false → Trimmed (c ∷ s)

skip_head-Trimmed : (s : List ℕ) → Trimmed (skip_head s)
unfolding skip_head
skip_head-Trimmed [] = empty
skip_head-Trimmed (c ∷ s) = elim (Bool-cases (c == 32 || c == 46)) [
  | inl e ↦ rw e (skip_head-Trimmed s)
  | inr e ↦ rw e (kept c s e)
]

Trimmed-skip_head : (s : List ℕ) → Trimmed s → skip_head s ≡ s
unfolding skip_head
Trimmed-skip_head [] empty = refl
Trimmed-skip_head (c ∷ s) (kept _ _ e) = rw e refl

-- What cut_tail leaves of a name with a first byte.
cut_tail_cons : (c : ℕ) (s : List ℕ) → (cut_tail (c ∷ s) ≡ []) ⊎ (cut_tail (c ∷ s) ≡ c ∷ cut_tail s)
unfolding cut_tail
cut_tail_cons c s = ground arith

Trimmed-cut_tail : (s : List ℕ) → Trimmed s → Trimmed (cut_tail s)
unfolding cut_tail
Trimmed-cut_tail [] empty = empty
Trimmed-cut_tail (c ∷ s) (kept _ _ e) = elim (cut_tail_cons c s) [
  | inl h ↦ rw h empty
  | inr h ↦ rw h (kept c (cut_tail s) e)
]

cut_tail-is_legal : (s : List ℕ) → is_legal s ≡ true → is_legal (cut_tail s) ≡ true
unfolding is_legal cut_tail
cut_tail-is_legal [] h = refl
cut_tail-is_legal (c ∷ s) h = elim (cut_tail_cons c s) [
  | inl e ↦ rw e refl
  | inr e ↦
      let later : is_legal (cut_tail s) ≡ true = cut_tail-is_legal s (ground (arith, h)) in
      let here : (ltb c 0x20 || has_char illegal c) ≡ false = ground (arith, h) in
      rw (e, here) later
]

cut_tail-cut_tail : (s : List ℕ) → cut_tail (cut_tail s) ≡ cut_tail s
unfolding cut_tail
cut_tail-cut_tail [] = refl
cut_tail-cut_tail (c ∷ s) = ground (arith, cut_tail-cut_tail s)

-- A name that formatname gives has only legal bytes, and formatname gives it for itself: nothing of
-- its head or its tail is left to trim.
pub formatname-formatname :
    (name r : List ℕ) → formatname name ≡ some r → (is_legal r ≡ true) × (formatname r ≡ some r)
unfolding formatname
formatname-formatname name r e =
    let s : List ℕ = skip_head name in
    let legal : is_legal s ≡ true = ground arith in
    let same : cut_tail s ≡ r = ground arith in
    let still : is_legal r ≡ true = rw⁻¹ same (cut_tail-is_legal s legal) in
    let trimmed : skip_head r ≡ r =
      rw⁻¹ same (Trimmed-skip_head (cut_tail s) (Trimmed-cut_tail s (skip_head-Trimmed name))) in
    let cut : cut_tail r ≡ r = rw⁻¹ same (cut_tail-cut_tail s) in
    (still, rw (trimmed, still, cut) refl)
