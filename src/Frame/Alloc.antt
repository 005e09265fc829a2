-- ===== src/Frame/Alloc.antt =====
-- What frame_alloc promises.
use k210_os.Prelude.{
  ℕ, suc, ◌+◌, ◌-◌, ◌%◌, ◌<◌, ◌≤◌, ◌≡◌, ◌⊎◌, inl, inr, ap, false, arith, ◌==◌, eq→==, Bool-cases,
  length, get_or, panic, load-ok, Yields,
}
use k210_os.Address.{word}
use k210_os.MaxHeap.{MaxHeap, heap_empty}
use k210_os.MaxHeap.Counting.{count, one_if, count-suc}
use k210_os.MaxHeap.Insert.{held}
use k210_os.Frame.{FrameAllocator, IsValid, frame_alloc, frame_remain_size}
use k210_os.Frame.Free.{free}

-- Frame `p` was free, and is the only one that is free in `f` and not in `f'`.
pub record Taken (f : FrameAllocator) (p : ℕ) (f' : FrameAllocator) : Type 0 where
  pub valid : IsValid f'
  pub was_free : free p f ≡ 1
  pub frees : (v : ℕ) → free v f' + one_if v p ≡ free v f
  pub remain : frame_remain_size f' + 1 ≡ frame_remain_size f

pop-held :
    (h : MaxHeap) (v : ℕ)
    → 0 < h.current_size
    → h.current_size ≤ length h.heap_array
    → count v (h.current_size - 1) h.heap_array
        + one_if v (get_or h.heap_array (h.current_size - 1) 0)
      ≡ held v h
pop-held h v pos k =
    let e : suc (h.current_size - 1) ≡ h.current_size = omega arith in
    omega (
      arith,
      count-suc v (h.current_size - 1) h.heap_array (omega arith),
      ap (λ n. count v n h.heap_array) e,
    )

module _ (f : FrameAllocator) (v : IsValid f) where
  open f use {current, end, recycled}

  from_heap :
      0 < recycled.current_size
      → Taken f
          (get_or recycled.heap_array (recycled.current_size - 1) 0)
          (record f { recycled = record recycled { current_size = recycled.current_size - 1 } })
  unfolding frame_remain_size
  from_heap pos =
      let at = λ (w : ℕ). pop-held recycled w pos (omega (arith, v.heap.storage, v.heap.within)) in
      let p : ℕ = get_or recycled.heap_array (recycled.current_size - 1) 0 in
      record {
        valid = record {
          heap = record {
            ordered = λ c h k. v.heap.ordered c h (omega arith);
            within = omega (arith, v.heap.within);
            storage = v.heap.storage;
          };
          below = λ w h. v.below w (omega (arith, at w));
          once = λ w. omega (arith, at w, v.once w);
          bounded = v.bounded;
          small = v.small;
        };
        was_free = ground (arith, at p, v.once p, v.below p);
        frees = λ w. omega (arith, at w);
        remain = omega (arith, v.bounded, v.small, v.heap.within);
      }

  from_range : current < end → Taken f current (record f { current = current + 1 })
  unfolding frame_remain_size
  from_range room = record {
    valid = record {
      heap = v.heap;
      below = λ w h. omega (arith, v.below w h);
      once = v.once;
      bounded = omega arith;
      small = v.small;
    };
    was_free = ground (arith, v.below current);
    frees = λ w. ground arith;
    remain = omega (arith, v.bounded, v.small, v.heap.within);
  }

-- frame_alloc on a valid allocator, where a frame has come back or the range is not used up, ends
-- in a valid allocator, and the frame that it returns is the only one that stops being free.
pub frame_alloc-Taken :
    (f : FrameAllocator)
    → IsValid f
    → (0 < f.recycled.current_size) ⊎ (f.current < f.end)
    → Yields (λ r. Taken f r.0 r.1) (frame_alloc f)
unfolding frame_alloc heap_empty
frame_alloc-Taken f v some_left = elim (Bool-cases (f.recycled.current_size == 0)) [
  | inr e ↦
      rw
        (
          e,
          load-ok f.recycled.heap_array (f.recycled.current_size - 1) 0
              (ground (arith, v.heap.storage, v.heap.within)),
        )
        (from_heap f v (ground arith))
  | inl e ↦
      let room : f.current < f.end = ground arith in
      let other : (f.current == f.end) ≡ false = ground arith in
      let up : (f.current + 1) % word ≡ f.current + 1 = omega (arith, v.small) in
      let down : (f.current + 1 + word - 1) % word ≡ f.current = omega (arith, v.small) in
      rw (e, other, up, down) (from_range f v room)
]

-- With no frame free it panics.
pub frame_alloc-panic :
    (f : FrameAllocator) → f.recycled.current_size ≡ 0 → f.current ≡ f.end → frame_alloc f ≡ panic
unfolding frame_alloc heap_empty
frame_alloc-panic f e e' = rw (eq→== _ _ e, eq→== _ _ e')
