-- ===== src/UserMemory/Copying.antt =====
-- copyin2 translates each byte's address.
use k210_os.Prelude.{
  ℕ, zero, suc, ◌+◌, ◌-◌, ◌/◌, ◌%◌, ◌<◌, ◌≤◌, ◌≡◌, ◌⊎◌, inl, inr, refl, sym, ap, ◌∙◌, min, true,
  Option, none, some, List, [], ◌∷◌, ◌++◌, arith, ltb, Outcome, ok, panic, fault, hang, ◌>>=◌,
}
use k210_os.Address.{word, page_size, get_offset, ppn2pa, va2vpn, vpn2va}
use k210_os.PageTable.{Memory, pte_get_ppn, find_pte}
use k210_os.UserMemory.{get_byte, get_bytes, in_page, va2pa, copyin_loop, copyin2}

-- The reading of one byte after another: each at the address that its own virtual address
-- translates to; a page that has no table makes it panic.
unfoldable pub user_bytes : Memory → ℕ → ℕ → ℕ → Outcome (List ℕ)
user_bytes m root va zero = ok []
user_bytes m root va (suc n) = do
  pa ← va2pa m root va
  rest ← user_bytes m root (va + 1) n
  ok (get_byte m pa ∷ rest)

-- Reading on from an outcome.
abbrev put_front : List ℕ → Outcome (List ℕ) → Outcome (List ℕ)
put_front xs r = r >>= λ ys. ok (xs ++ ys)

put_front-[] : (r : Outcome (List ℕ)) → r ≡ put_front [] r
put_front-[] (ok a) = refl
put_front-[] panic = refl
put_front-[] fault = refl
put_front-[] hang = refl

put_front-∷ :
    (x : ℕ) (xs : List ℕ) (r : Outcome (List ℕ))
    → (put_front xs r >>= λ ys. ok (x ∷ ys)) ≡ put_front (x ∷ xs) r
put_front-∷ x xs (ok a) = refl
put_front-∷ x xs panic = refl
put_front-∷ x xs fault = refl
put_front-∷ x xs hang = refl

in_page-offset :
    (m : Memory) (r : Option (ℕ × ℕ)) (k : ℕ)
    → in_page m r k ≡ (in_page m r 0 >>= λ pa. ok (pa + k))
unfolding in_page
in_page-offset m none k = refl
in_page-offset m (some at) k = ap ok (omega arith)

-- The addresses of a page translate together.
va2pa-offset :
    (m : Memory) (root va k : ℕ)
    → va % page_size ≡ 0
    → k < page_size
    → va2pa m root (va + k) ≡ (va2pa m root va >>= λ pa. ok (pa + k))
unfolding va2pa
va2pa-offset m root va k aligned h =
    let page : (va + k) / page_size ≡ va / page_size = omega arith in
    let offset : (va + k) % page_size ≡ k = omega arith in
    rw (page, offset, aligned) (in_page-offset m (find_pte m root (va / page_size)) k)

-- Bytes of one page are read together.
user_bytes-page :
    (m : Memory) (root va pa k n rest total : ℕ)
    → va % page_size ≡ 0
    → va2pa m root va ≡ ok pa
    → k + n ≤ page_size
    → total ≡ n + rest
    → user_bytes m root (va + k) total
      ≡ put_front (get_bytes m (pa + k) n) (user_bytes m root (va + k + n) rest)
unfolding user_bytes get_bytes
user_bytes-page m root va pa k zero rest total aligned e h t =
    let same : total ≡ rest = omega arith in
    let stay : va + k + 0 ≡ va + k = omega arith in
    rw (same, stay) (put_front-[] (user_bytes m root (va + k) rest))
user_bytes-page m root va pa k (suc n) rest zero aligned e h t = absurd (omega arith)
user_bytes-page m root va pa k (suc n) rest (suc total) aligned e h t =
    let on : va + k + suc n ≡ va + (k + 1) + n = omega arith in
    let next : va + k + 1 ≡ va + (k + 1) = omega arith in
    let next_pa : pa + k + 1 ≡ pa + (k + 1) = omega arith in
    rw (va2pa-offset m root va k aligned (omega arith), e, on, next, next_pa)
      (ap (λ r. r >>= λ ys. ok (get_byte m (pa + k) ∷ ys))
          (user_bytes-page m root va pa (k + 1) n rest total aligned e (omega arith) (omega arith))
        ∙ put_front-∷ (get_byte m (pa + k)) (get_bytes m (pa + (k + 1)) n)
            (user_bytes m root (va + (k + 1) + n) rest))

user_bytes-panic :
    (m : Memory) (root va k n : ℕ)
    → va % page_size ≡ 0
    → va2pa m root va ≡ panic
    → k < page_size
    → user_bytes m root (va + k) (suc n) ≡ panic
unfolding user_bytes
user_bytes-panic m root va k n aligned e h = rw (va2pa-offset m root va k aligned h, e) refl

in_page-cases :
    (m : Memory) (r : Option (ℕ × ℕ)) (off : ℕ)
    → ((pa : ℕ) × (in_page m r off ≡ ok pa)) ⊎ (in_page m r off ≡ panic)
unfolding in_page
in_page-cases m none off = inr refl
in_page-cases m (some at) off = inl (ppn2pa (pte_get_ppn (m at.0 at.1)) + off, refl)

va2pa-cases :
    (m : Memory) (root va : ℕ) → ((pa : ℕ) × (va2pa m root va ≡ ok pa)) ⊎ (va2pa m root va ≡ panic)
unfolding va2pa
va2pa-cases m root va = in_page-cases m (find_pte m root (va2vpn va)) (get_offset va)

user_bytes-none : (m : Memory) (root x : ℕ) → user_bytes m root x 0 ≡ ok []
unfolding user_bytes
user_bytes-none m root x = refl

user_bytes-at :
    (m : Memory) (root x y n : ℕ) → (0 < n → x ≡ y) → user_bytes m root x n ≡ user_bytes m root y n
unfolding user_bytes
user_bytes-at m root x y zero e = refl
user_bytes-at m root x y (suc n) e = rw (e (omega arith)) refl

copyin_loop-eq :
    (fuel : ℕ) (m : Memory) (root srcva len : ℕ)
    → len < fuel
    → (0 < len → srcva + len ≤ word)
    → copyin_loop fuel m root srcva len ≡ user_bytes m root srcva len
unfolding copyin_loop
copyin_loop-eq zero m root srcva len f h = absurd (omega arith)
copyin_loop-eq (suc fuel) m root srcva zero f h = sym (user_bytes-none m root srcva)
copyin_loop-eq (suc fuel) m root srcva (suc l) f h =
    let bound : srcva + suc l ≤ word = h (omega arith) in
    let va : ℕ = vpn2va (va2vpn srcva) in
    let k : ℕ = srcva - va in
    let n : ℕ = min (suc l) (page_size - k) in
    let some_left : ltb 0 (suc l) ≡ true = ground arith in
    let aligned : va % page_size ≡ 0 = omega arith in
    let inside : k < page_size = omega arith in
    let whole : srcva ≡ va + k = omega arith in
    let left : ℕ = suc l - n in
    elim (va2pa-cases m root va) [
      | inl (pa, e) ↦
          let next : 0 < left → (va + page_size) % word ≡ va + k + n = λ p. omega arith in
          let rest : copyin_loop fuel m root ((va + page_size) % word) left
              ≡ user_bytes m root (va + k + n) left =
            copyin_loop-eq fuel m root ((va + page_size) % word) left (omega arith)
              (λ p. omega arith)
            ∙ user_bytes-at m root ((va + page_size) % word) (va + k + n) left next in
          rw (some_left, e)
            (ap (put_front (get_bytes m (pa + k) n)) rest
              ∙ (sym (
                    user_bytes-page m root va pa k n left (suc l) aligned e (omega arith)
                      (omega arith))
                  ∙ ap (λ x. user_bytes m root x (suc l)) (sym whole)))
      | inr e ↦
          rw (some_left, e)
            (sym (user_bytes-panic m root va k l aligned e inside)
              ∙ ap (λ x. user_bytes m root x (suc l)) (sym whole))
    ]

-- copyin2 copies each byte from the address that its own virtual address translates to, across
-- pages, and panics just if one of them has no table. The range has to lie below 2 ^ 64.
pub copyin2-eq :
    (m : Memory) (root srcva len : ℕ)
    → srcva + len ≤ word
    → copyin2 m root srcva len ≡ user_bytes m root srcva len
unfolding copyin2
copyin2-eq m root srcva len h = copyin_loop-eq (len + 1) m root srcva len (omega arith) (λ p. h)
