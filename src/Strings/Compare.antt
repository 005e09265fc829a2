-- ===== src/Strings/Compare.antt =====
-- memcmp and strncmp answer 0 just for equal bytes.
use k210_os.Prelude.{
  ℕ, zero, suc, ◌+◌, ◌<◌, ◌≡◌, ◌≢◌, ◌↔◌, inl, inr, refl, sym, ap, ◌∙◌, true, false, List, [], ◌∷◌,
  arith, ◌==◌, if◌then◌else◌, ==→eq, Bool-cases, get_or, drop,
}
use k210_os.Strings.{Bytes, difference, memcmp, strncmp}

difference-zero : (a b : ℕ) → a < 256 → b < 256 → difference a b ≡ 0 → a ≡ b
difference-zero a b ha hb e = omega arith

-- the bytes from `p` on up to the first NUL, at most `n`
unfoldable pub text : ℕ → Bytes → ℕ → List ℕ
text zero m p = []
text (suc n) m p = let rest : List ℕ = text n m (p + 1) in if m p == 0 then [] else m p ∷ rest

-- the `n` bytes from `p` on
unfoldable pub block : ℕ → Bytes → ℕ → List ℕ
block zero m p = []
block (suc n) m p = m p ∷ block n m (p + 1)

module _ (m : Bytes) (bytes : (k : ℕ) → m k < 256) where
  differ : (p q : ℕ) → (m p == m q) ≡ false → difference (m p) (m q) ≢ 0
  differ p q e z =
      let same : m p ≡ m q = difference-zero (m p) (m q) (bytes p) (bytes q) z in
      absurd (ground (arith, e, same))

  unequal : (p q : ℕ) → (m p == m q) ≡ false → m p ≢ m q
  unequal p q e same = ground (arith, e, same)

  -- A text starts with its first byte, or is empty where that is NUL.
  text_head : (n p : ℕ) → get_or (text (suc n) m p) 0 0 ≡ m p
  unfolding text
  text_head n p = elim (Bool-cases (m p == 0)) [
    | inl z ↦ rw z (sym (==→eq (m p) 0 z))
    | inr z ↦ rw z refl
  ]

  -- memcmp answers 0 just if the two blocks of `n` bytes are equal.
  pub memcmp-block : (n p q : ℕ) → (memcmp n m p q ≡ 0) ↔ (block n m p ≡ block n m q)
  unfolding memcmp block
  memcmp-block zero p q = (λ e. refl, λ e. refl)
  memcmp-block (suc n) p q = elim (Bool-cases (m p == m q)) [
    | inl e ↦
        let same : m p ≡ m q = ==→eq (m p) (m q) e in
        let (to, fro) = memcmp-block n (p + 1) (q + 1) in
        rw e (λ z. rw (same, to z) refl, λ b. fro (ap (drop 1) b))
    | inr e ↦
        rw e (λ z. absurd (differ p q e z), λ b. absurd (unequal p q e (ap (λ l. get_or l 0 0) b)))
  ]

  -- strncmp answers 0 just if the two strings agree up to a NUL or `n` bytes.
  pub strncmp-text : (n p q : ℕ) → (strncmp n m p q ≡ 0) ↔ (text n m p ≡ text n m q)
  unfolding strncmp text
  strncmp-text zero p q = (λ e. refl, λ e. refl)
  strncmp-text (suc n) p q = elim (Bool-cases (m p == m q)) [
    | inl e ↦
        let same : m p ≡ m q = ==→eq (m p) (m q) e in
        elim (Bool-cases (m p == 0)) [
          | inl z ↦
              let z' : (m q == 0) ≡ true = rw (sym same) z in
              let none_p : text (suc n) m p ≡ [] = rw z refl in
              let none_q : text (suc n) m q ≡ [] = rw z' refl in
              let equal : difference (m p) (m q) ≡ 0 = omega arith in
              let answer : strncmp (suc n) m p q ≡ 0 = rw z equal in
              (λ _. none_p ∙ sym none_q, λ _. answer)
          | inr z ↦
              let z' : (m q == 0) ≡ false = rw (sym same) z in
              let some_p : text (suc n) m p ≡ m p ∷ text n m (p + 1) = rw z refl in
              let some_q : text (suc n) m q ≡ m q ∷ text n m (q + 1) = rw z' refl in
              let further : strncmp (suc n) m p q ≡ strncmp n m (p + 1) (q + 1) = rw (z, e) refl in
              let (to, fro) = strncmp-text n (p + 1) (q + 1) in
              (
                λ x.
                    some_p
                    ∙ (ap (◌∷◌ (m p)) (to (sym further ∙ x))
                        ∙ (ap (λ c. c ∷ text n m (q + 1)) same ∙ sym some_q)),
                λ b. further ∙ fro (ap (drop 1) (sym some_p ∙ (b ∙ some_q))),
              )
        ]
    | inr e ↦
        let stops : strncmp (suc n) m p q ≡ difference (m p) (m q) = elim (Bool-cases (m p == 0)) [
          | inl z ↦ rw z refl
          | inr z ↦ rw (z, e) refl
        ] in
        (
          λ x. absurd (differ p q e (sym stops ∙ x)),
          λ b.
              absurd
                (unequal p q e (sym (text_head n p) ∙ (ap (λ l. get_or l 0 0) b ∙ text_head n q))),
        )
  ]
