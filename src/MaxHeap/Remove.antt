-- ===== src/MaxHeap/Remove.antt =====
-- heap_removeMax takes the largest number out.
use k210_os.Prelude.{
  ℕ, suc, ◌+◌, ◌-◌, ◌<◌, ◌≡◌, inl, inr, refl, ap, List, arith, ltb, ◌==◌, if◌then◌else◌, ltb→lt,
  ltb→le, eq→==, ==→eq, Bool-cases, length, set, length-set, get_or-set, set-get_or, panic, load-ok,
  store-ok, Yields, Yields->>=,
}
use k210_os.MaxHeap.{MaxHeap, heap_parent, heap_empty, heap_sift_down, heap_remove_max}
use k210_os.MaxHeap.Counting.{count, one_if, count-set, count-suc}
use k210_os.MaxHeap.Order.{entry, Sifted}
use k210_os.MaxHeap.Down.{DownInv, sift_down_loop-Sifted}
use k210_os.MaxHeap.Insert.{IsValid, held}

-- `h'` is `h` without its first number, which is left just past the end of the heap.
pub record Removed (h h' : MaxHeap) : Type 0 where
  pub valid : IsValid h'
  pub shrunk : h'.current_size + 1 ≡ h.current_size
  pub limit : h'.max_size ≡ h.max_size
  pub holds : (v : ℕ) → held v h' + one_if v (entry h.heap_array 0) ≡ held v h
  pub left : entry h'.heap_array h'.current_size ≡ entry h.heap_array 0

module _ (h : MaxHeap) (v : IsValid h) (some_left : 0 < h.current_size) where
  n : ℕ
  n = h.current_size - 1

  -- the array after the two writes
  swapped : List ℕ
  unfolding n
  swapped = set (set h.heap_array 0 (entry h.heap_array n)) n (entry h.heap_array 0)

  at :
      (c : ℕ)
      → entry swapped c ≡ (
          if n == c
          then entry h.heap_array 0
          else if 0 == c
          then entry h.heap_array n
          else entry h.heap_array c)
  unfolding n swapped
  at c = ground (
    arith,
    v.storage,
    length-set h.heap_array 0 (entry h.heap_array n),
    get_or-set (set h.heap_array 0 (entry h.heap_array n)) n c (entry h.heap_array 0) 0,
    get_or-set h.heap_array 0 c (entry h.heap_array n) 0,
  )

  length-swapped : length swapped ≡ length h.heap_array
  unfolding swapped
  length-swapped = omega (
    arith,
    length-set (set h.heap_array 0 (entry h.heap_array n)) n (entry h.heap_array 0),
    length-set h.heap_array 0 (entry h.heap_array n),
  )

  swapped-DownInv : DownInv n swapped 0
  unfolding n
  swapped-DownInv = record {
    edges = λ c p q r. ground (arith, at c, at (heap_parent c), v.ordered c);
    bridged = λ c p q r s. absurd (omega arith);
  }

  count-swapped : (w : ℕ) → count w n swapped + one_if w (entry h.heap_array 0) ≡ held w h
  unfolding n swapped
  count-swapped w =
      let e : h.current_size ≡ suc n = omega arith in
      let last : entry swapped n ≡ entry h.heap_array 0 = ground (arith, at n) in
      omega (
        arith,
        ap (λ k. count w k h.heap_array) e,
        count-suc w n swapped (omega (arith, v.storage, v.within, length-swapped)),
        ap (one_if w) last,
        whole w,
      )
    where
      whole : (w : ℕ) → count w (suc n) swapped ≡ count w (suc n) h.heap_array
      whole w =
          let size = length-set h.heap_array 0 (entry h.heap_array n) in
          let kept : entry (set h.heap_array 0 (entry h.heap_array n)) n ≡ entry h.heap_array n =
            ground
              (arith, v.storage, v.within, get_or-set h.heap_array 0 n (entry h.heap_array n) 0) in
          omega (
            arith,
            count-set w (suc n) h.heap_array 0 (entry h.heap_array n) (omega arith)
                (omega (arith, v.storage, v.within)),
            count-set w (suc n) (set h.heap_array 0 (entry h.heap_array n)) n (entry h.heap_array 0)
                (omega arith) (omega (arith, v.storage, v.within, size)),
            ap (one_if w) kept,
          )

  Removed-sift :
      (b : List ℕ) → Sifted n swapped b → Removed h (record h { heap_array = b; current_size = n })
  unfolding n
  Removed-sift b s = record {
    valid = record {
      ordered = s.ordered;
      within = omega (arith, v.within);
      storage = omega (arith, s.size, length-swapped, v.storage);
    };
    shrunk = omega arith;
    limit = refl;
    holds = λ w. omega (arith, s.same w, count-swapped w);
    left = ground (arith, s.rest n, at n);
  }

-- heap_removeMax on a non-empty valid heap ends in a valid heap that holds everything but the
-- first number, which it leaves just past the end.
pub heap_remove_max-Removed :
    (h : MaxHeap) → IsValid h → 0 < h.current_size → Yields (Removed h) (heap_remove_max h)
unfolding heap_remove_max heap_empty heap_sift_down swapped n
heap_remove_max-Removed h v some_left = elim (Bool-cases (h.current_size == 0)) [
  | inl e ↦ absurd (omega (arith, ==→eq _ _ e))
  | inr e ↦
      let size = length-set h.heap_array 0 (entry h.heap_array (h.current_size - 1)) in
      rw
        (
          e,
          load-ok h.heap_array 0 0 (omega (arith, v.storage, v.within)),
          load-ok h.heap_array (h.current_size - 1) 0 (omega (arith, v.storage, v.within)),
          store-ok h.heap_array 0 (entry h.heap_array (h.current_size - 1))
              (omega (arith, v.storage, v.within)),
          store-ok (set h.heap_array 0 (entry h.heap_array (h.current_size - 1)))
              (h.current_size - 1) (entry h.heap_array 0)
              (omega (arith, v.storage, v.within, size)),
        )
        (elim (Bool-cases (ltb 1 (h.current_size - 1))) [
          | inr short ↦ rw short (
              Removed-sift h v some_left (swapped h v some_left) (record {
                ordered = λ c p q. absurd (omega (arith, ltb→le _ _ short));
                same = λ _. refl;
                size = refl;
                rest = λ _ _. refl;
              }))
          | inl long ↦
              rw
                (
                  long,
                  load-ok (swapped h v some_left) 0 0
                      (omega (arith, length-swapped h v some_left, v.storage, v.within)),
                )
                (Yields->>= (Sifted (h.current_size - 1) (swapped h v some_left)) (Removed h) _ _
                  (rw (set-get_or (swapped h v some_left) 0 0) at (
                    sift_down_loop-Sifted (h.current_size - 1 + 1) (h.current_size - 1)
                      (swapped h v some_left) 0 (entry (swapped h v some_left) 0) (omega arith)
                      (omega (arith, ltb→lt _ _ long))
                      (omega (arith, length-swapped h v some_left, v.storage, v.within))
                      (rw (set-get_or (swapped h v some_left) 0 0)
                        (swapped-DownInv h v some_left))))
                  (Removed-sift h v some_left))
        ])
]

-- heap_removeMax on an empty heap panics.
pub heap_remove_max-panic : (h : MaxHeap) → h.current_size ≡ 0 → heap_remove_max h ≡ panic
unfolding heap_remove_max heap_empty
heap_remove_max-panic h e = rw (eq→== _ _ e)
