-- ===== src/MaxHeap/Down.antt =====
-- heap_SiftDown restores the order where only one entry may be too small for its place.
use k210_os.Prelude.{
  ℕ, zero, suc, ◌+◌, ◌-◌, ◌<◌, ◌≤◌, ◌≡◌, ◌≢◌, ◌⊎◌, inl, inr, refl, List, arith, ltb, ◌==◌,
  if◌then◌else◌, ltb→lt, ltb→le, Bool-cases, length, set, length-set, get_or-set, load-ok, store-ok,
  Yields, Yields->>=,
}
use k210_os.MaxHeap.{heap_parent, heap_lc, heap_rc, larger_child, sift_down_loop}
use k210_os.MaxHeap.Order.{entry, IsBridged, Sifted, moved, entry-moved, Sifted-moved}

-- Only the edges below `i` may be out of order.
pub record DownInv (n : ℕ) (b : List ℕ) (i : ℕ) : Type 0 where
  pub edges : (c : ℕ) → 0 < c → c < n → heap_parent c ≢ i → entry b c ≤ entry b (heap_parent c)
  pub bridged : IsBridged n b i

-- `j` is a child of `i`, and no other is larger.
record IsLargerChild (n : ℕ) (a : List ℕ) (i j : ℕ) : Type 0 where
  inside : j < n
  child : (j ≡ heap_lc i) ⊎ (j ≡ heap_rc i)
  most : (c : ℕ) → 0 < c → c < n → heap_parent c ≡ i → entry a c ≤ entry a j

larger_child-IsLargerChild :
    (n : ℕ) (a : List ℕ) (i : ℕ)
    → heap_lc i < n
    → n ≤ length a
    → Yields (IsLargerChild n a i) (larger_child n a (heap_lc i))
unfolding larger_child
larger_child-IsLargerChild n a i h hn = elim (Bool-cases (ltb (heap_lc i) (n - 1))) [
  | inr e ↦
      rw e (record { inside = h; child = inl refl; most = λ c p q r. only c p q r (ltb→le _ _ e) })
  | inl e ↦
      let room : heap_lc i < n - 1 = ltb→lt _ _ e in
      rw (e, load-ok a (heap_lc i) 0 (omega arith), load-ok a (heap_lc i + 1) 0 (omega arith))
        (elim (Bool-cases (ltb (entry a (heap_lc i)) (entry a (heap_lc i + 1)))) [
          | inl r ↦ rw r (record {
            inside = omega arith;
            child = inr (omega arith);
            most = λ c p q s. pick c p s (ltb→lt _ _ r);
          })
          | inr l ↦ rw l (record {
            inside = h;
            child = inl refl;
            most = λ c p q s. pick' c p s (ltb→le _ _ l);
          })
        ])
]
  where
    which : (c : ℕ) → 0 < c → heap_parent c ≡ i → (c ≡ heap_lc i) ⊎ (c ≡ heap_lc i + 1)
    which c p r = grind arith

    only :
        (c : ℕ)
        → 0 < c
        → c < n
        → heap_parent c ≡ i
        → n - 1 ≤ heap_lc i
        → entry a c ≤ entry a (heap_lc i)
    only c p q r l = let e : c ≡ heap_lc i = omega arith in rw e (omega arith)

    pick :
        (c : ℕ)
        → 0 < c
        → heap_parent c ≡ i
        → entry a (heap_lc i) < entry a (heap_lc i + 1)
        → entry a c ≤ entry a (heap_lc i + 1)
    pick c p r l = elim (which c p r) [ inl e ↦ rw e (omega arith) | inr e ↦ rw e (omega arith) ]

    pick' :
        (c : ℕ)
        → 0 < c
        → heap_parent c ≡ i
        → entry a (heap_lc i + 1) ≤ entry a (heap_lc i)
        → entry a c ≤ entry a (heap_lc i)
    pick' c p r l = elim (which c p r) [ inl e ↦ rw e (omega arith) | inr e ↦ rw e (omega arith) ]

module _ (n : ℕ) (a : List ℕ) (i temp : ℕ) (hi : i < n) (hn : n ≤ length a) where
  hole : (c : ℕ) → entry (set a i temp) c ≡ (if i == c then temp else entry a c)
  hole c = get_or-set a i c temp 0 (omega arith)

  moved-DownInv :
      (j : ℕ)
      → IsLargerChild n a i j
      → DownInv n (set a i temp) i
      → temp < entry a j
      → DownInv n (moved a i j temp) j
  moved-DownInv j w v lt =
      let at =
        entry-moved n a i j temp (omega arith) (omega (arith, w.inside)) (omega (arith, w.child)) in
      record {
        edges = λ c p q r. ground (
          arith,
          at c,
          at (heap_parent c),
          hole c,
          hole (heap_parent c),
          hole (heap_parent i),
          v.edges c p q,
          v.bridged j,
          w.most c p q,
          w.child,
          w.inside,
          hole j,
        );
        bridged = λ c p q r s.
            ground (arith, at c, at (heap_parent j), hole c, hole j, v.edges c p q, w.child);
      }

  settled :
      DownInv n (set a i temp) i
      → ((c : ℕ) → 0 < c → c < n → heap_parent c ≡ i → entry a c ≤ temp)
      → Sifted n (set a i temp) (set a i temp)
  settled v most = record {
    ordered = λ c p q. ground (arith, hole c, hole (heap_parent c), v.edges c p q, most c p q);
    same = λ _. refl;
    size = refl;
    rest = λ _ _. refl;
  }

pub sift_down_loop-Sifted :
    (fuel n : ℕ) (a : List ℕ) (i temp : ℕ)
    → n - i < fuel
    → i < n
    → n ≤ length a
    → DownInv n (set a i temp) i
    → Yields (Sifted n (set a i temp)) (sift_down_loop fuel n a i temp)
unfolding sift_down_loop
sift_down_loop-Sifted zero n a i temp f hi hn v = absurd (omega arith)
sift_down_loop-Sifted (suc fuel) n a i temp f hi hn v = elim (Bool-cases (ltb (heap_lc i) n)) [
  | inr leaf ↦
      rw (leaf, store-ok a i temp (omega arith))
        (settled n a i temp hi hn v (λ c p q r. absurd (omega (arith, ltb→le _ _ leaf))))
  | inl inner ↦ rw inner (
      Yields->>= (IsLargerChild n a i) (Sifted n (set a i temp)) (larger_child n a (heap_lc i)) _
        (larger_child-IsLargerChild n a i (ltb→lt _ _ inner) hn)
        (λ j w.
          rw (load-ok a j 0 (omega (arith, w.inside))) (elim (Bool-cases (ltb temp (entry a j))) [
            | inr keep ↦
                rw (keep, store-ok a i temp (omega arith))
                  (settled n a i temp hi hn v
                    (λ c p q r. omega (arith, w.most c p q r, ltb→le _ _ keep)))
            | inl below ↦
                rw (below, store-ok a i (entry a j) (omega arith))
                  (Sifted-moved n a i j temp (omega arith) (omega (arith, w.inside))
                    (omega (arith, w.child)) hi w.inside
                    (sift_down_loop fuel n (set a i (entry a j)) j temp)
                    (sift_down_loop-Sifted fuel n (set a i (entry a j)) j temp
                      (omega (arith, w.child)) w.inside (omega (arith, length-set a i (entry a j)))
                      (moved-DownInv n a i temp hi hn j w v (ltb→lt _ _ below))))
          ])))
]
