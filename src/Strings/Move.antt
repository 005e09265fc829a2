-- ===== src/Strings/Move.antt =====
-- memmove copies whether or not the ranges overlap.
use k210_os.Prelude.{
  ℕ, zero, suc, ◌+◌, ◌-◌, ◌≤◌, ◌≡◌, ◌⊎◌, inl, inr, refl, ap, ◌∙◌, true, false, ◌&&◌, arith, ltb,
  leb, ◌==◌, if◌then◌else◌, Bool-cases,
}
use k210_os.Strings.{Bytes, put, copy_up, copy_down, memmove}

-- a memory with `n` bytes at `d` replaced by those that stood at `s`
abbrev pub moved : Bytes → ℕ → ℕ → ℕ → Bytes
moved m d s n = λ k. if leb d k && ltb k (d + n) then m (s + (k - d)) else m k

copy_up-moved :
    (n : ℕ) (m : Bytes) (d s k : ℕ) → (d ≤ s) ⊎ (s + n ≤ d) → copy_up n m d s k ≡ moved m d s n k
unfolding copy_up
copy_up-moved zero m d s k h =
    let none_in : (leb d k && ltb k (d + 0)) ≡ false = ground arith in rw none_in
copy_up-moved (suc n) m d s k h =
    copy_up-moved n (put m d (m s)) (d + 1) (s + 1) k
      (elim h [ inl x ↦ inl (omega arith) | inr x ↦ inr (omega arith) ])
    ∙ elim (Bool-cases (leb (d + 1) k && ltb k (d + 1 + n))) [
      | inl e ↦
          let e' : (leb d k && ltb k (d + suc n)) ≡ true = ground arith in
          let other : (s + 1 + (k - (d + 1)) == d) ≡ false = ground arith in
          let same : s + 1 + (k - (d + 1)) ≡ s + (k - d) = ground arith in
          rw (e, e', other) (ap m same)
      | inr e ↦ rw e (elim (Bool-cases (k == d)) [
        | inl f ↦
            let e' : (leb d k && ltb k (d + suc n)) ≡ true = ground arith in
            let same : s ≡ s + (k - d) = ground arith in rw (f, e') (ap m same)
        | inr f ↦ let e' : (leb d k && ltb k (d + suc n)) ≡ false = ground arith in rw (f, e')
      ])
    ]

copy_down-moved :
    (n : ℕ) (m : Bytes) (d s k : ℕ) → s ≤ d → copy_down n m (d + n) (s + n) k ≡ moved m d s n k
unfolding copy_down
copy_down-moved zero m d s k h =
    let none_in : (leb d k && ltb k (d + 0)) ≡ false = ground arith in rw none_in
copy_down-moved (suc n) m d s k h =
    let dn : d + suc n - 1 ≡ d + n = omega arith in
    let sn : s + suc n - 1 ≡ s + n = omega arith in
    rw (dn, sn)
      (copy_down-moved n (put m (d + n) (m (s + n))) d s k h
        ∙ elim (Bool-cases (leb d k && ltb k (d + n))) [
          | inl e ↦
              let e' : (leb d k && ltb k (d + suc n)) ≡ true = ground arith in
              let other : (s + (k - d) == d + n) ≡ false = ground arith in rw (e, e', other) refl
          | inr e ↦ rw e (elim (Bool-cases (k == d + n)) [
            | inl f ↦
                let e' : (leb d k && ltb k (d + suc n)) ≡ true = ground arith in
                let same : s + n ≡ s + (k - d) = ground arith in rw (f, e') (ap m same)
            | inr f ↦ let e' : (leb d k && ltb k (d + suc n)) ≡ false = ground arith in rw (f, e')
          ])
        ])

-- memmove leaves at each address of the destination the byte that stood at the matching address of
-- the source before the call, whether or not the two ranges overlap, and every other byte as it
-- was.
pub memmove-moved : (m : Bytes) (dst src n k : ℕ) → memmove m dst src n k ≡ moved m dst src n k
unfolding memmove
memmove-moved m dst src n k = elim (Bool-cases (ltb src dst && ltb dst (src + n))) [
  | inl e ↦ rw e (copy_down-moved n m dst src k (ground arith))
  | inr e ↦ rw e (copy_up-moved n m dst src k (ground arith))
]
