-- ===== src/Frame/Dealloc.antt =====
-- What frame_dealloc promises: its loop gives frames back to the range.
use k210_os.Prelude.{
  ℕ, zero, suc, ◌+◌, ◌-◌, ◌<◌, ◌≡◌, ◌≢◌, inl, inr, refl, sym, ap, ◌∙◌, false, arith, leb, ◌==◌,
  lt→ltb, ==→eq, Bool-cases, panic, load-ok, Yields, Yields->>=, Yields-map,
}
use k210_os.MaxHeap.{MaxHeap, heap_top}
use k210_os.MaxHeap.Counting.{one_if, count-pos}
use k210_os.MaxHeap.Order.{entry}
use k210_os.MaxHeap.Insert.{held, Added, heap_insert-Added}
use k210_os.MaxHeap.Remove.{Removed, heap_remove_max-Removed}
use k210_os.MaxHeap.Search.{is_some-held}
use k210_os.Frame.{FrameAllocator, IsValid, frame_dealloc, merge_loop, pred64, frame_remain_size}
use k210_os.Frame.Free.{free, fresh-pred}

-- `f'` has the free frames of `f`, and its heap does not end with the frame below the range.
pub record Merged (f f' : FrameAllocator) : Type 0 where
  pub valid : IsValid f'
  pub frees : (v : ℕ) → free v f' ≡ free v f
  pub remain : frame_remain_size f' ≡ frame_remain_size f
  pub apart : 0 < f'.recycled.current_size → entry f'.recycled.heap_array 0 + 1 ≢ f'.current

-- The loop reads the first slot of an empty heap too: that slot then holds the frame taken last.
record LoopInv (f : FrameAllocator) : Type 0 where
  valid : IsValid f
  array : 0 < f.recycled.max_size
  stale : f.recycled.current_size ≡ 0 → entry f.recycled.heap_array 0 ≡ f.current

abbrev shrunk : FrameAllocator → MaxHeap → FrameAllocator
shrunk f h = record { current = f.current - 1; end = f.end; recycled = h }

module _ (f : FrameAllocator) (v : LoopInv f)
    (top : entry f.recycled.heap_array 0 ≡ pred64 f.current) where
  some_left : 0 < f.recycled.current_size
  some_left = ground (arith, v.stale, v.valid.bounded, v.valid.small)

  top_held : 0 < held (pred64 f.current) f.recycled
  top_held =
      count-pos (pred64 f.current) f.recycled.current_size f.recycled.heap_array 0 some_left
        (omega (arith, v.valid.heap.storage, v.array)) top

  positive : 0 < f.current
  positive = omega (arith, v.valid.below (pred64 f.current) top_held)

  is_pred : pred64 f.current ≡ f.current - 1
  is_pred = omega (arith, positive, v.valid.bounded, v.valid.small)

  module _ (h : MaxHeap) (r : Removed f.recycled h) where
    holds : (w : ℕ) → held w h + one_if w (f.current - 1) ≡ held w f.recycled
    holds w = omega (arith, r.holds w, ap (one_if w) (top ∙ is_pred))

    shrunk-LoopInv : LoopInv (shrunk f h)
    shrunk-LoopInv = record {
      valid = record {
        heap = r.valid;
        below = λ w k. ground (arith, holds w, v.valid.below w, v.valid.once w, positive);
        once = λ w. omega (arith, holds w, v.valid.once w);
        bounded = omega (arith, v.valid.bounded);
        small = omega (arith, v.valid.small, r.limit);
      };
      array = omega (arith, v.array, r.limit);
      stale = λ e. (ap (entry h.heap_array) (sym e) ∙ r.left) ∙ (top ∙ is_pred);
    }

    shrunk-Merged : (f' : FrameAllocator) → Merged (shrunk f h) f' → Merged f f'
    unfolding frame_remain_size
    shrunk-Merged f' m = record {
      valid = m.valid;
      frees = λ w.
          omega (arith, m.frees w, holds w, fresh-pred w f.current f.end positive v.valid.bounded);
      remain = omega (
        arith, m.remain, r.shrunk, positive, v.valid.bounded, v.valid.small, v.valid.heap.within,
      );
      apart = m.apart;
    }

merge_loop-Merged :
    (fuel : ℕ) (f : FrameAllocator)
    → f.recycled.current_size < fuel
    → LoopInv f
    → Yields (Merged f) (merge_loop fuel f)
unfolding merge_loop heap_top
merge_loop-Merged zero f k v = absurd (omega arith)
merge_loop-Merged (suc fuel) f k v =
    rw (load-ok f.recycled.heap_array 0 0 (omega (arith, v.array, v.valid.heap.storage)))
      (elim (Bool-cases (entry f.recycled.heap_array 0 == pred64 f.current)) [
        | inr other ↦ rw other (record {
          valid = v.valid;
          frees = λ w. refl;
          remain = refl;
          apart = λ h e. ground (arith, v.valid.bounded, v.valid.small);
        })
        | inl same ↦
            let top = ==→eq _ _ same in
            rw (same, is_pred f v top)
              (Yields->>= (Removed f.recycled) (Merged f) _ _
                (heap_remove_max-Removed f.recycled v.valid.heap (some_left f v top))
                (λ h r.
                  Yields-map (Merged (shrunk f h)) (Merged f) (merge_loop fuel (shrunk f h))
                    (shrunk-Merged f v top h r)
                    (merge_loop-Merged fuel (shrunk f h) (omega (arith, r.shrunk))
                      (shrunk-LoopInv f v top h r))))
      ])

-- `f'` is `f` with frame `p` free again.
pub record Given (f : FrameAllocator) (p : ℕ) (f' : FrameAllocator) : Type 0 where
  pub valid : IsValid f'
  pub frees : (v : ℕ) → free v f' ≡ free v f + one_if v p
  pub remain : frame_remain_size f' ≡ frame_remain_size f + 1
  pub apart : 0 < f'.recycled.current_size → entry f'.recycled.heap_array 0 + 1 ≢ f'.current

module _ (f : FrameAllocator) (p : ℕ) (v : IsValid f) (used : p < f.current)
    (absent : held p f.recycled ≡ 0) where
  insert-LoopInv : (h : MaxHeap) → Added f.recycled p h → LoopInv (record f { recycled = h })
  insert-LoopInv h a = record {
    valid = record {
      heap = a.valid;
      below = λ w k. ground (arith, a.holds w, v.below w);
      once = λ w. ground (arith, a.holds w, v.once w);
      bounded = v.bounded;
      small = omega (arith, v.small, a.limit);
    };
    array = omega (arith, a.limit, a.grown, a.valid.within);
    stale = λ e. absurd (omega (arith, a.grown));
  }

  insert-Given :
      (h : MaxHeap)
      → Added f.recycled p h
      → (f' : FrameAllocator) → Merged (record f { recycled = h }) f'
      → Given f p f'
  unfolding frame_remain_size
  insert-Given h a f' m = record {
    valid = m.valid;
    frees = λ w. omega (arith, m.frees w, a.holds w);
    remain =
        omega
          (arith, m.remain, a.grown, v.bounded, v.small, v.heap.within, a.valid.within, a.limit);
    apart = m.apart;
  }

-- Returning a frame that was handed out, with room in the heap, ends in a valid allocator where
-- that frame alone has become free, and where the largest returned frame does not border the range.
pub frame_dealloc-Given :
    (f : FrameAllocator) (p : ℕ)
    → IsValid f
    → p < f.current
    → held p f.recycled ≡ 0
    → f.recycled.current_size < f.recycled.max_size
    → Yields (Given f p) (frame_dealloc f p)
unfolding frame_dealloc
frame_dealloc-Given f p v used absent room =
    let out : leb f.current p ≡ false = ground arith in
    rw (out, is_some-held f.recycled p (omega (arith, v.heap.storage, v.heap.within)), absent)
      (Yields->>= (Added f.recycled p) (Given f p) _ _ (heap_insert-Added f.recycled p v.heap room)
        (λ h a.
          Yields-map (Merged (record f { recycled = h })) (Given f p)
            (merge_loop (h.current_size + 1) (record f { recycled = h }))
            (insert-Given f p v used absent h a)
            (merge_loop-Merged (h.current_size + 1) (record f { recycled = h }) (omega arith)
              (insert-LoopInv f p v used absent h a))))

-- Returning a frame that is free panics, on a valid allocator.
pub frame_dealloc-panic :
    (f : FrameAllocator) (p : ℕ) → IsValid f → p < f.end → 0 < free p f → frame_dealloc f p ≡ panic
unfolding frame_dealloc
frame_dealloc-panic f p v k h = elim (Bool-cases (leb f.current p)) [
  | inl e ↦ rw e
  | inr e ↦ rw (
    e,
    is_some-held f.recycled p (omega (arith, v.heap.storage, v.heap.within)),
    lt→ltb 0 (held p f.recycled) (ground arith),
  )
]
