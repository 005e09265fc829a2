-- ===== src/MaxHeap/Up.antt =====
-- heap_SiftUp restores the order where only one entry may be too large for its place.
use k210_os.Prelude.{
  ℕ, zero, suc, ◌<◌, ◌≤◌, ◌≡◌, ◌≢◌, ◌⊎◌, inl, inr, refl, List, arith, ltb, ◌==◌, if◌then◌else◌,
  ltb→lt, ltb→le, Bool-cases, length, set, length-set, get_or-set, load-ok, store-ok, Yields,
}
use k210_os.MaxHeap.{heap_parent, sift_up_loop}
use k210_os.MaxHeap.Order.{entry, IsHeap, IsBridged, Sifted, moved, entry-moved, Sifted-moved}

-- Only the edge above `i` may be out of order.
pub record UpInv (n : ℕ) (b : List ℕ) (i : ℕ) : Type 0 where
  pub edges : (c : ℕ) → 0 < c → c < n → c ≢ i → entry b c ≤ entry b (heap_parent c)
  pub bridged : IsBridged n b i

module _ (n : ℕ) (a : List ℕ) (i temp : ℕ) (hi : i < n) (hn : n ≤ length a) where
  hole : (c : ℕ) → entry (set a i temp) c ≡ (if i == c then temp else entry a c)
  hole c = get_or-set a i c temp 0 (omega arith)

  moved-UpInv :
      0 < i
      → UpInv n (set a i temp) i
      → entry a (heap_parent i) < temp
      → UpInv n (moved a i (heap_parent i) temp) (heap_parent i)
  moved-UpInv pos v lt =
      let at = entry-moved n a i (heap_parent i) temp (omega arith) (omega arith) (omega arith) in
      record {
        edges = λ c p q r. ground (
          arith,
          at c,
          at (heap_parent c),
          hole c,
          hole (heap_parent c),
          v.edges c p q,
          v.bridged c p q,
          hole (heap_parent i),
          hole i,
        );
        bridged = λ c p q r s. ground (
          arith,
          at c,
          at (heap_parent (heap_parent i)),
          hole c,
          hole (heap_parent i),
          hole (heap_parent (heap_parent i)),
          v.edges c p q,
          v.edges (heap_parent i),
          v.bridged c p q,
        );
      }

  settled :
      UpInv n (set a i temp) i
      → (i ≡ 0) ⊎ (temp ≤ entry a (heap_parent i))
      → IsHeap n (set a i temp)
  settled v stop c p q = ground (arith, hole c, hole (heap_parent c), v.edges c p q)

pub sift_up_loop-Sifted :
    (fuel n : ℕ) (a : List ℕ) (i temp : ℕ)
    → i < fuel
    → i < n
    → n ≤ length a
    → UpInv n (set a i temp) i
    → Yields (Sifted n (set a i temp)) (sift_up_loop fuel a i temp)
unfolding sift_up_loop
sift_up_loop-Sifted zero n a i temp f hi hn v = absurd (omega arith)
sift_up_loop-Sifted (suc fuel) n a i temp f hi hn v =
    let stop : (i ≡ 0) ⊎ (temp ≤ entry a (heap_parent i)) → Sifted n (set a i temp) (set a i temp) =
      λ w. record {
        ordered = settled n a i temp hi hn v w;
        same = λ _. refl;
        size = refl;
        rest = λ _ _. refl;
      } in
    elim (Bool-cases (ltb 0 i)) [
      | inr root ↦ rw (root, store-ok a i temp (omega arith)) (stop (inl (ground arith)))
      | inl pos ↦
          let pos' : 0 < i = ltb→lt 0 i pos in
          rw (pos, load-ok a (heap_parent i) 0 (omega arith))
            (elim (Bool-cases (ltb (entry a (heap_parent i)) temp)) [
              | inr keep ↦ rw (keep, store-ok a i temp (omega arith)) (stop (inr (ltb→le _ _ keep)))
              | inl below ↦
                  rw (below, store-ok a i (entry a (heap_parent i)) (omega arith))
                    (Sifted-moved n a i (heap_parent i) temp (omega arith) (omega arith)
                      (omega arith) hi (omega arith)
                      (sift_up_loop fuel (set a i (entry a (heap_parent i))) (heap_parent i) temp)
                      (sift_up_loop-Sifted fuel n (set a i (entry a (heap_parent i)))
                        (heap_parent i) temp (omega arith) (omega arith)
                        (omega (arith, length-set a i (entry a (heap_parent i))))
                        (moved-UpInv n a i temp hi hn pos' v (ltb→lt _ _ below))))
            ])
    ]
