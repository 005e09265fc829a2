-- ===== src/MaxHeap/Search.antt =====
-- is_some finds exactly the numbers that the heap holds.
use k210_os.Prelude.{
  ℕ, zero, suc, ◌+◌, ◌≤◌, ◌≡◌, inl, inr, refl, List, arith, ltb, ◌==◌, lt→ltb, ==→eq, Bool-cases,
  length, get_or, ok, load-ok,
}
use k210_os.MaxHeap.{MaxHeap, is_some, is_some_from}
use k210_os.MaxHeap.Counting.{count, count-suc, count-pos}
use k210_os.MaxHeap.Insert.{held}

is_some_from-count :
    (r i k : ℕ) (a : List ℕ) (v : ℕ)
    → k ≡ i + r
    → k ≤ length a
    → count v i a ≡ 0
    → is_some_from r i a v ≡ ok (ltb 0 (count v k a))
unfolding is_some_from
is_some_from-count zero i k a v e h z = let e' : k ≡ i = omega arith in rw e' (ground arith)
is_some_from-count (suc r) i k a v e h z =
    rw (load-ok a i 0 (omega arith)) (elim (Bool-cases (get_or a i 0 == v)) [
      | inl found ↦ rw (
        found,
        lt→ltb 0 (count v k a) (count-pos v k a i (omega arith) (omega arith) (==→eq _ _ found)),
      )
      | inr other ↦
          let e' : i + 1 ≡ suc i = omega arith in
          rw other (
            is_some_from-count r (i + 1) k a v (omega arith) h
              (rw e' (ground (arith, count-suc v i a))))
    ])

-- is_some answers whether the heap holds the number, for a heap within its array.
pub is_some-held :
    (h : MaxHeap) (v : ℕ)
    → h.current_size ≤ length h.heap_array
    → is_some h v ≡ ok (ltb 0 (held v h))
unfolding is_some count
is_some-held h v k =
    is_some_from-count h.current_size 0 h.current_size h.heap_array v (omega arith) k refl
