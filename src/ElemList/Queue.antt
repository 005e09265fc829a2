-- ===== src/ElemList/Queue.antt =====
-- list_append and list_pop are a queue.
use k210_os.Prelude.{
  ℕ, zero, suc, ◌^◌, ◌<◌, ◌≡◌, ◌≢◌, refl, sym, ap, ◌∙◌, Bool, true, false, ◌||◌, List, [], ◌∷◌,
  ◌++◌, arith, ◌==◌, length, ok, Yields,
}
use k210_os.ElemList.{
  Links, set_prev, set_next, list_insert_before, list_append, list_remove, list_pop, list_len_from,
  list_len,
}

unfoldable pub mem : ℕ → List ℕ → Bool
mem n [] = false
mem n (x ∷ xs) = n == x || mem n xs

-- From `a` the links lead through `xs` to `tail` and back, and no element is met twice.
pub data Chain (l : Links) (tail : ℕ) : ℕ → List ℕ → Type 0 where
  end : {a : ℕ} → a ≢ tail → l.next a ≡ tail → l.prev tail ≡ a → Chain l tail a []
  link :
      {a x : ℕ} {xs : List ℕ}
      → a ≢ tail
      → mem a (x ∷ xs) ≡ false
      → l.next a ≡ x
      → l.prev x ≡ a
      → Chain l tail x xs
      → Chain l tail a (x ∷ xs)

-- The tail's predecessor is one of the elements.
last_in :
    {l : Links} {tail a : ℕ} {xs : List ℕ} → Chain l tail a xs → mem (l.prev tail) (a ∷ xs) ≡ true
unfolding mem
last_in (end ne n p) = ground (arith, p)
last_in (link ne out n p more) = ground (arith, last_in more)

start_apart : {l : Links} {tail a : ℕ} {xs : List ℕ} → Chain l tail a xs → a ≢ tail
start_apart (end ne n p) = ne
start_apart (link ne out n p more) = ne

start_out : {l : Links} {tail a : ℕ} {xs : List ℕ} → Chain l tail a xs → mem a xs ≡ false
unfolding mem
start_out (end ne n p) = refl
start_out (link ne out n p more) = out

mem_apart : (a b : ℕ) (ys : List ℕ) → mem a ys ≡ false → mem b ys ≡ true → a ≢ b
mem_apart a b ys out within same =
    let clash : true ≡ false = sym within ∙ (ap (λ k. mem k ys) (sym same) ∙ out) in cc

mem-append_last :
    (a elem : ℕ) (ys : List ℕ) → mem a ys ≡ false → a ≢ elem → mem a (ys ++ elem ∷ []) ≡ false
unfolding mem
mem-append_last a elem [] out ne = ground arith
mem-append_last a elem (y ∷ ys) out ne =
    let here : (a == y) ≡ false = ground arith in
    let later : mem a ys ≡ false = ground arith in rw here (mem-append_last a elem ys later ne)

-- On a list that is linked right, with an element that is not in it, list_append puts the element
-- behind the others, and the list is linked right again.
pub list_append-Chain :
    (l : Links) (tail a elem : ℕ) (xs : List ℕ)
    → Chain l tail a xs
    → mem elem (a ∷ xs) ≡ false
    → elem ≢ tail
    → Chain (list_append l tail elem) tail a (xs ++ elem ∷ [])
unfolding list_append list_insert_before mem
list_append-Chain l tail a elem [] (end ne n p) out ne' =
    let apart : elem ≢ a = ground arith in
    link ne (ground arith) (ground (arith, p, apart)) (ground (arith, p))
      (end ne' (ground arith) (ground (arith, ne')))
list_append-Chain l tail a elem (x ∷ xs) (link ne out' n p more) out ne' =
    let apart : elem ≢ a = ground arith in
    let out_rest : mem elem (x ∷ xs) ≡ false = ground arith in
    let apart' : elem ≢ x = ground arith in
    let not_last : a ≢ l.prev tail = mem_apart a (l.prev tail) (x ∷ xs) out' (last_in more) in
    link ne (mem-append_last a elem (x ∷ xs) out' (λ same. apart (sym same)))
      (ground (arith, n, apart, not_last)) (ground (arith, p, apart', start_apart more))
      (list_append-Chain l tail x elem xs more out_rest ne')

list_len_from-length :
    (l : Links) (tail a fuel : ℕ) (xs : List ℕ)
    → Chain l tail a xs
    → length xs < fuel
    → length xs < 2 ^ 32
    → list_len_from fuel l tail (l.next a) ≡ ok (length xs)
unfolding list_len_from
list_len_from-length l tail a zero xs c f w = absurd (omega arith)
list_len_from-length l tail a (suc fuel) [] (end ne n p) f w =
    let there : (l.next a == tail) ≡ true = ground arith in rw there refl
list_len_from-length l tail a (suc fuel) (x ∷ xs) (link ne out n p more) f w =
    let here : (x == tail) ≡ false = ground (arith, start_apart more) in
    rw (n, here, list_len_from-length l tail x fuel xs more (omega arith) (omega arith))
      (ap ok (omega arith))

-- list_len counts the elements of a list that is linked right, with more rounds than elements.
pub list_len-length :
    (l : Links) (tail a fuel : ℕ) (xs : List ℕ)
    → Chain l tail a xs
    → length xs < fuel
    → length xs < 2 ^ 32
    → list_len fuel l a tail ≡ ok (length xs)
unfolding list_len
list_len-length l tail a fuel xs c f w = list_len_from-length l tail a fuel xs c f w

-- Links that agree on the elements make the same chain.
Chain-same :
    {l : Links} {tail a : ℕ} {xs : List ℕ} (l' : Links)
    → Chain l tail a xs
    → ((n : ℕ) → mem n (a ∷ xs) ≡ true → l'.next n ≡ l.next n)
    → ((n : ℕ) → mem n xs ≡ true → l'.prev n ≡ l.prev n)
    → l'.prev tail ≡ l.prev tail
    → Chain l' tail a xs
unfolding mem
Chain-same {l} {tail} {a} l' (end ne n p) hn hp ht = end ne (hn a (ground arith) ∙ n) (ht ∙ p)
Chain-same {l} {tail} {a} l' (link {x} {xs} ne out n p more) hn hp ht =
    link ne out (hn a (ground arith) ∙ n) (hp x (ground arith) ∙ p)
      (Chain-same l' more (λ k h. hn k (ground (arith, h))) (λ k h. hp k (ground (arith, h))) ht)

-- the links after `x`, between `a` and `y`, is taken out
abbrev unlinked : Links → ℕ → ℕ → ℕ → Links
unlinked l a x y = set_next (set_prev (set_prev (set_next l a y) y a) x 0) x 0

list_remove-eq :
    (l : Links) (a x y : ℕ)
    → l.prev x ≡ a
    → l.next x ≡ y
    → a ≢ 0
    → y ≢ 0
    → x ≢ a
    → list_remove l x ≡ ok (unlinked l a x y)
unfolding list_remove
list_remove-eq l a x y p n a_node y_node ne =
    let some_prev : (a == 0) ≡ false = ground arith in
    let some_next : (y == 0) ≡ false = ground arith in
    let other : (x == a) ≡ false = ground arith in rw (p, some_prev, other, n, some_next) refl

-- What list_pop comes to: the first element, and the others linked right.
pub record Popped (tail a x : ℕ) (xs : List ℕ) (r : ℕ × Links) : Type 0 where
  pub first : r.0 ≡ x
  pub rest : Chain r.1 tail a xs

unlinked-Chain :
    (l : Links) (tail a x : ℕ) (xs : List ℕ)
    → Chain l tail a (x ∷ xs)
    → Chain (unlinked l a x (l.next x)) tail a xs
unfolding mem
unlinked-Chain l tail a x [] (link ne out n p (end ne' n' p')) =
    let apart : a ≢ x = ground arith in end ne (ground (arith, n', apart)) (ground (arith, n', ne'))
unlinked-Chain l tail a x (y ∷ ys) (link ne out n p (link ne' out' n' p' more)) =
    let apart : a ≢ x = ground arith in
    let y_apart : y ≢ x = ground arith in
    let later : mem a (y ∷ ys) ≡ false = ground arith in
    let x_out : mem x ys ≡ false = ground arith in
    link ne later (ground (arith, n', apart)) (ground (arith, n', y_apart)) (
      Chain-same (unlinked l a x (l.next x)) more
        (λ k h. ground (arith, mem_apart x k (y ∷ ys) out' h, mem_apart a k (y ∷ ys) later h))
        (λ k h. ground (arith, mem_apart x k ys x_out h, mem_apart y k ys (start_out more) h, n'))
        (ground (arith, n', ne', start_apart more)))

-- On a list that is linked right and not empty, whose elements are no NULL pointers, list_pop
-- returns the first element, and the list without it is linked right.
pub list_pop-Popped :
    (l : Links) (tail a x : ℕ) (xs : List ℕ)
    → Chain l tail a (x ∷ xs)
    → mem 0 (a ∷ x ∷ xs) ≡ false
    → tail ≢ 0
    → Yields (Popped tail a x xs) (list_pop l a)
unfolding list_pop mem
list_pop-Popped l tail a x xs (link ne out n p more) nodes t =
    let a_node : a ≢ 0 = ground arith in
    let apart : x ≢ a = ground arith in
    let next_node : l.next x ≢ 0 = following more (ground arith) in
    rw (n, list_remove-eq l a x (l.next x) p refl a_node next_node apart)
      (record { first = refl; rest = unlinked-Chain l tail a x xs (link ne out n p more) })
  where
    following : {y : ℕ} {ys : List ℕ} → Chain l tail y ys → mem 0 ys ≡ false → l.next y ≢ 0
    following (end _ e _) h = λ z. t (sym e ∙ z)
    following (link _ _ e _ _) h = λ z. ground (arith, sym e ∙ z)
