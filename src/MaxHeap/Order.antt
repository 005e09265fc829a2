-- ===== src/MaxHeap/Order.antt =====
-- The heap order, and what a sift leaves.
use k210_os.Prelude.{
  ℕ, zero, suc, ◌<◌, ◌≤◌, ◌∙◌, ◌≡◌, ◌≢◌, ap, List, arith, ◌==◌, if◌then◌else◌, length, get_or, set,
  length-set, get_or-set, Outcome, ok, panic, fault, hang, Yields,
}
use k210_os.MaxHeap.{heap_parent}
use k210_os.MaxHeap.Counting.{count, one_if, count-set}

abbrev pub entry : List ℕ → ℕ → ℕ
entry a i = get_or a i 0

-- No entry below `n` is larger than the one above it in the tree.
abbrev pub IsHeap : ℕ → List ℕ → Type 0
IsHeap n a = (c : ℕ) → 0 < c → c < n → entry a c ≤ entry a (heap_parent c)

-- The edges past `i`, from the entry above it to those below it, are in order.
abbrev pub IsBridged : ℕ → List ℕ → ℕ → Type 0
IsBridged n a i =
    (c : ℕ) → 0 < c → c < n → heap_parent c ≡ i → 0 < i → entry a c ≤ entry a (heap_parent i)

-- `b` has the first `n` numbers of `a`, in heap order, and the rest where they were.
pub record Sifted (n : ℕ) (a b : List ℕ) : Type 0 where
  pub ordered : IsHeap n b
  pub same : (v : ℕ) → count v n b ≡ count v n a
  pub size : length b ≡ length a
  pub rest : (i : ℕ) → n ≤ i → entry b i ≡ entry a i

root_largest_below :
    (k n : ℕ) (a : List ℕ) (i : ℕ) → IsHeap n a → i < k → i < n → entry a i ≤ entry a 0
root_largest_below zero n a i h f p = absurd (omega arith)
root_largest_below (suc k) n a i h f p =
    ground (arith, h i, root_largest_below k n a (heap_parent i) h)

-- The first entry of a heap is the largest.
pub root_largest : (n : ℕ) (a : List ℕ) (i : ℕ) → IsHeap n a → i < n → entry a i ≤ entry a 0
root_largest n a i h p = root_largest_below (suc i) n a i h (omega arith) p

-- Moving the hole from `i` to `j`, and `temp` put into it there.
abbrev pub moved : List ℕ → ℕ → ℕ → ℕ → List ℕ
moved a i j temp = set (set a i (entry a j)) j temp

module _ (n : ℕ) (a : List ℕ) (i j temp : ℕ) (hi : i < length a) (hj : j < length a)
    (ne : i ≢ j) where
  pub entry-moved :
      (c : ℕ)
      → entry (moved a i j temp) c
        ≡ (if j == c then temp else if i == c then entry a j else entry (set a i temp) c)
  entry-moved c = ground (
    arith,
    get_or-set (set a i (entry a j)) j c temp 0 (omega (arith, length-set a i (entry a j))),
    get_or-set a i c (entry a j) 0 hi,
    get_or-set a i c temp 0 hi,
  )

  pub length-moved : length (moved a i j temp) ≡ length a
  length-moved = omega (arith, length-set (set a i (entry a j)) j temp, length-set a i (entry a j))

  pub count-moved :
      (v : ℕ) → i < n → j < n → count v n (moved a i j temp) ≡ count v n (set a i temp)
  count-moved v p q = omega (
    arith,
    count-set v n (set a i (entry a j)) j temp q (omega (arith, length-set a i (entry a j))),
    ap (one_if v) kept,
    count-set v n a i (entry a j) p hi,
    count-set v n a i temp p hi,
  )
    where
      kept : entry (set a i (entry a j)) j ≡ entry a j
      kept = ground (arith, get_or-set a i j (entry a j) 0 hi)

  -- What is sifted after the hole has moved is sifted.
  pub Sifted-moved :
      i < n
      → j < n
      → (m : Outcome (List ℕ)) → Yields (Sifted n (moved a i j temp)) m
      → Yields (Sifted n (set a i temp)) m
  Sifted-moved p q (ok b) s = record {
    ordered = s.ordered;
    same = λ v. s.same v ∙ count-moved v p q;
    size = omega (arith, s.size, length-moved, length-set a i temp);
    rest = λ c h. ground (arith, s.rest c h, entry-moved c);
  }
  Sifted-moved p q panic s = absurd s
  Sifted-moved p q fault s = absurd s
  Sifted-moved p q hang s = absurd s
