-- ===== src/MaxHeap/Insert.antt =====
-- heap_insert, and the invariant of `struct maxHeap`.
use k210_os.Prelude.{
  ℕ, suc, ◌+◌, ◌<◌, ◌≤◌, ◌≡◌, inl, inr, refl, ap, List, arith, ◌==◌, if◌then◌else◌, eq→==, ==→eq,
  Bool-cases, length, set, length-set, get_or-set, set-set, panic, load-ok, store-ok, Yields,
  Yields->>=,
}
use k210_os.MaxHeap.{MaxHeap, heap_parent, heap_sift_up, heap_insert}
use k210_os.MaxHeap.Counting.{count, one_if, count-suc, count-set_above}
use k210_os.MaxHeap.Order.{entry, IsHeap, Sifted}
use k210_os.MaxHeap.Up.{UpInv, sift_up_loop-Sifted}

pub record IsValid (h : MaxHeap) : Type 0 where
  pub ordered : IsHeap h.current_size h.heap_array
  pub within : h.current_size ≤ h.max_size
  pub storage : h.max_size ≤ length h.heap_array

-- how often the heap holds `v`
abbrev pub held : ℕ → MaxHeap → ℕ
held v h = count v h.current_size h.heap_array

-- `h'` holds one `x` more than `h`.
pub record Added (h : MaxHeap) (x : ℕ) (h' : MaxHeap) : Type 0 where
  pub valid : IsValid h'
  pub grown : h'.current_size ≡ h.current_size + 1
  pub limit : h'.max_size ≡ h.max_size
  pub holds : (v : ℕ) → held v h' ≡ held v h + one_if v x

module _ (h : MaxHeap) (x : ℕ) (v : IsValid h) (room : h.current_size < h.max_size) where
  placed : List ℕ
  placed = set h.heap_array h.current_size x

  at : (c : ℕ) → entry placed c ≡ (if h.current_size == c then x else entry h.heap_array c)
  unfolding placed
  at c = get_or-set h.heap_array h.current_size c x 0 (omega (arith, v.storage))

  placed-UpInv : UpInv (h.current_size + 1) placed h.current_size
  placed-UpInv = record {
    edges = λ c p q r. ground (arith, at c, at (heap_parent c), v.ordered c);
    bridged = λ c p q r s. absurd (omega arith);
  }

  Added-sift :
      (b : List ℕ)
      → Sifted (h.current_size + 1) placed b
      → Added h x (record h { heap_array = b; current_size = h.current_size + 1 })
  unfolding placed
  Added-sift b s = record {
    valid = record {
      ordered = s.ordered;
      within = omega arith;
      storage = omega (arith, s.size, length-set h.heap_array h.current_size x, v.storage);
    };
    grown = refl;
    limit = refl;
    holds = λ w. holds w;
  }
    where
      holds : (w : ℕ) → count w (h.current_size + 1) b ≡ held w h + one_if w x
      holds w =
          let e : h.current_size + 1 ≡ suc h.current_size = omega arith in
          let top : entry placed h.current_size ≡ x = ground (arith, at h.current_size) in
          omega (
            arith,
            s.same w,
            ap (λ k. count w k placed) e,
            count-suc w h.current_size placed
                (omega (arith, v.storage, length-set h.heap_array h.current_size x)),
            count-set_above w h.current_size h.heap_array h.current_size x (omega arith),
            ap (one_if w) top,
          )

-- heap_insert on a valid heap with room ends in a valid heap that holds exactly the new number
-- besides what was there.
pub heap_insert-Added :
    (h : MaxHeap) (x : ℕ)
    → IsValid h
    → h.current_size < h.max_size
    → Yields (Added h x) (heap_insert h x)
unfolding heap_insert heap_sift_up placed
heap_insert-Added h x v room = elim (Bool-cases (h.current_size == h.max_size)) [
  | inl e ↦ absurd (omega (arith, ==→eq _ _ e))
  | inr e ↦
      let size = length-set h.heap_array h.current_size x in
      let top : entry (set h.heap_array h.current_size x) h.current_size ≡ x =
        ground (arith, at h x v room h.current_size) in
      rw
        (
          e,
          store-ok h.heap_array h.current_size x (omega (arith, v.storage)),
          load-ok (set h.heap_array h.current_size x) h.current_size 0
              (omega (arith, v.storage, size)),
          top,
        )
        (Yields->>= (λ g. Added h x (record g { current_size = h.current_size + 1 })) (Added h x) _
          _
          (Yields->>= (Sifted (h.current_size + 1) (placed h x v room))
            (λ g. Added h x (record g { current_size = h.current_size + 1 })) _ _
            (rw (set-set h.heap_array h.current_size x x) at (
              sift_up_loop-Sifted (h.current_size + 1) (h.current_size + 1)
                (set h.heap_array h.current_size x) h.current_size x (omega arith) (omega arith)
                (omega (arith, v.storage, size))
                (rw (set-set h.heap_array h.current_size x x) (placed-UpInv h x v room))))
            (Added-sift h x v room))
          (λ g p. p))
]

-- heap_insert on a full heap panics.
pub heap_insert-panic :
    (h : MaxHeap) (x : ℕ) → h.current_size ≡ h.max_size → heap_insert h x ≡ panic
unfolding heap_insert
heap_insert-panic h x e = rw (eq→== _ _ e)
