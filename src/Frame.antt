-- ===== src/Frame.antt =====
-- src/mm_frame_allocator.c: physical frames, handed out from a range and from a heap of returned
-- ones.
pub mod Free
pub mod Alloc
pub mod Dealloc
mod Tests
use k210_os.Prelude.{
  ℕ, zero, suc, ◌+◌, ◌-◌, ◌*◌, ◌/◌, ◌%◌, ◌^◌, ◌<◌, ◌≤◌, ◌≡◌, ◌≢◌, ◌↔◌, ◌⊎◌, inl, inr, refl, sym, ap,
  ◌∙◌, min, max, Bool, true, false, not, ◌&&◌, ◌||◌, Option, none, some, List, [], ◌∷◌, ◌++◌, map,
  arith, ltb, leb, ◌==◌, if◌then◌else◌, lt→ltb, ltb→lt, ltb→le, leb→le, eq→==, ==→eq, Bool-cases,
  length, get_elem?, get_or, set, replicate, take, drop, length-append, length-set,
  length-replicate, get_elem?-eq-get_or, get_or-set, get_or-append, set-set, set-get_or, Outcome,
  ok, panic, fault, hang, ◌>>=◌, ◌>>◌, assert, from_option, load, store, load-ok, store-ok, Yields,
  Yields->>=,
}
use k210_os.Address.{page_size, word, memory_end, pa_floor, pa_ceil}
use k210_os.MaxHeap.{
  MaxHeap, heap_init, heap_empty, heap_insert, heap_remove_max, heap_top, is_some,
}
use k210_os.MaxHeap.Counting.{count}
use k210_os.MaxHeap.Insert
use k210_os.MaxHeap.Insert.{held}

-- `struct FrameAllocator`; its lock and its bitmap are not used by the code.
pub record FrameAllocator : Type 0 where
  pub current : ℕ
  pub end : ℕ
  pub recycled : MaxHeap

-- `uint64_t` decrement
abbrev pub pred64 : ℕ → ℕ
pred64 n = (n + word - 1) % word

-- The heap's array comes from the kernel heap, as `memory`; `ekernel` is the linker's symbol.
unfoldable pub frame_allocator_init : ℕ → (ℕ → List ℕ) → FrameAllocator
frame_allocator_init ekernel memory =
    let current : ℕ = pa_ceil ((ekernel + page_size) % word) in
    let end : ℕ = pa_floor memory_end in
    let page_nums : ℕ = (end + word - current) % word in
    record { current = current; end = end; recycled = heap_init (memory page_nums) page_nums }

unfoldable pub frame_alloc : FrameAllocator → Outcome (ℕ × FrameAllocator)
frame_alloc self =
    if not (heap_empty self.recycled)
    then (do
      t ← load self.recycled.heap_array (self.recycled.current_size - 1)
      let rest : MaxHeap = record (self.recycled) { current_size = self.recycled.current_size - 1 }
      ok (t, record self { recycled = rest }))
    else (if self.current == self.end
        then panic
        else (let next : ℕ = (self.current + 1) % word in
            ok (pred64 next, record self { current = next })))

-- The `while` of frame_dealloc.
unfoldable pub merge_loop : ℕ → FrameAllocator → Outcome FrameAllocator
merge_loop zero self = hang
merge_loop (suc fuel) self = do
  top ← heap_top self.recycled
  let shrink : Outcome FrameAllocator =
      (heap_remove_max self.recycled >>= λ h.
      merge_loop fuel (record { current = pred64 self.current; end = self.end; recycled = h }))
  if top == pred64 self.current then shrink else ok self

unfoldable pub frame_dealloc : FrameAllocator → ℕ → Outcome FrameAllocator
frame_dealloc self ppn = if leb self.current ppn then panic else (do
  known ← is_some self.recycled ppn
  (if known then panic else (do
    h ← heap_insert self.recycled ppn
    merge_loop (h.current_size + 1) (record self { recycled = h }))))

unfoldable pub frame_remain_size : FrameAllocator → ℕ
frame_remain_size self =
    ((self.end + word - self.current) % word + self.recycled.current_size) % word

-- The heap of returned frames is in order, holds each once, and only frames below `current`.
pub record IsValid (f : FrameAllocator) : Type 0 where
  pub heap : Insert.IsValid f.recycled
  pub below : (v : ℕ) → 0 < held v f.recycled → v < f.current
  pub once : (v : ℕ) → held v f.recycled ≤ 1
  pub bounded : f.current ≤ f.end
  pub small : f.end + f.recycled.max_size < word
