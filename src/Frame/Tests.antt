-- ===== src/Frame/Tests.antt =====
-- The theorems about the frame allocator at a concrete allocator.
use k210_os.Prelude.{inl, refl, [], ◌∷◌, arith, Yields}
use k210_os.MaxHeap.Counting.{count}
use k210_os.Frame.{FrameAllocator, IsValid, frame_alloc, frame_dealloc}
use k210_os.Frame.Alloc.{Taken, frame_alloc-Taken}
use k210_os.Frame.Dealloc.{Given, frame_dealloc-Given}

-- Frame 5 has come back, the frames from 8 on were never handed out.
abbrev one_back : FrameAllocator
one_back = record {
  current = 8;
  end = 10;
  recycled = record { heap_array = 5 ∷ 0 ∷ 0 ∷ 0 ∷ []; current_size = 1; max_size = 4 };
}

one_back-IsValid : IsValid one_back
unfolding count
one_back-IsValid = record {
  heap = record {
    ordered = λ c h k. absurd (omega arith);
    within = omega arith;
    storage = omega arith;
  };
  below = λ v h. ground arith;
  once = λ v. ground arith;
  bounded = omega arith;
  small = omega arith;
}

frame_alloc-Taken_example : Yields (λ r. Taken one_back r.0 r.1) (frame_alloc one_back)
frame_alloc-Taken_example = frame_alloc-Taken one_back one_back-IsValid (inl (omega arith))

-- Frame 7 borders the range, so it goes back into it.
frame_dealloc-Given_example : Yields (Given one_back 7) (frame_dealloc one_back 7)
unfolding count
frame_dealloc-Given_example =
    frame_dealloc-Given one_back 7 one_back-IsValid (omega arith) refl (omega arith)
