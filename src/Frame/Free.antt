-- ===== src/Frame/Free.antt =====
-- The abstract view of the allocator: which frames are free.
use k210_os.Prelude.{ℕ, ◌+◌, ◌-◌, ◌<◌, ◌≤◌, ◌≡◌, ◌&&◌, arith, ltb, leb, if◌then◌else◌}
use k210_os.Frame.{FrameAllocator, IsValid}
use k210_os.MaxHeap.Counting.{one_if}
use k210_os.MaxHeap.Insert.{held}

-- 1 if the frame was never handed out, or its number came back into the range
abbrev pub fresh : ℕ → ℕ → ℕ → ℕ
fresh v current end = if leb current v && ltb v end then 1 else 0

-- how often `frame_alloc` can hand out frame `v` before it is returned
abbrev pub free : ℕ → FrameAllocator → ℕ
free v f = held v f.recycled + fresh v f.current f.end

pub free-le-one : (f : FrameAllocator) (v : ℕ) → IsValid f → free v f ≤ 1
free-le-one f v h = ground (arith, h.once v, h.below v)

-- Moving the lower end of the range down by one makes one more frame fresh.
pub fresh-pred :
    (v c end : ℕ) → 0 < c → c ≤ end → fresh v (c - 1) end ≡ fresh v c end + one_if v (c - 1)
fresh-pred v c end h k = ground arith
