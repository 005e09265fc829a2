-- ===== src/MaxHeap.antt =====
-- src/max_heap.c: the binary max-heap over an array of numbers that keeps the returned frames.
-- Positions are `int` in the source and sizes stay below 2 ^ 31 here, so they do not wrap.
pub mod Counting
pub mod Order
pub mod Up
pub mod Down
pub mod Insert
pub mod Remove
pub mod Search
mod Tests
use k210_os.Prelude.{
  ℕ, zero, suc, ◌+◌, ◌-◌, ◌*◌, ◌/◌, ◌%◌, ◌^◌, ◌<◌, ◌≤◌, ◌≡◌, ◌≢◌, ◌↔◌, ◌⊎◌, inl, inr, refl, sym, ap,
  ◌∙◌, min, max, Bool, true, false, not, ◌&&◌, ◌||◌, Option, none, some, List, [], ◌∷◌, ◌++◌, map,
  arith, ltb, leb, ◌==◌, if◌then◌else◌, lt→ltb, ltb→lt, ltb→le, leb→le, eq→==, ==→eq, Bool-cases,
  length, get_elem?, get_or, set, replicate, take, drop, length-append, length-set,
  length-replicate, get_elem?-eq-get_or, get_or-set, get_or-append, Outcome, ok, panic, fault, hang,
  ◌>>=◌, ◌>>◌, assert, from_option, load, store, load-ok, store-ok, Yields, Yields->>=,
}

-- `struct maxHeap`
pub record MaxHeap : Type 0 where
  pub heap_array : List ℕ
  pub current_size : ℕ
  pub max_size : ℕ

-- `memory` is the block at `base`, or the one that the kernel heap gives where that is null.
unfoldable pub heap_init : List ℕ → ℕ → MaxHeap
heap_init memory n = record { heap_array = memory; current_size = 0; max_size = n }

unfoldable pub heap_empty : MaxHeap → Bool
heap_empty h = h.current_size == 0

unfoldable pub heap_leaf : MaxHeap → ℕ → Bool
heap_leaf h pos = ltb (h.current_size / 2) pos && ltb pos h.current_size

abbrev pub heap_lc : ℕ → ℕ
heap_lc pos = 2 * pos + 1

abbrev pub heap_rc : ℕ → ℕ
heap_rc pos = 2 * pos + 2

-- Called at positive positions only.
abbrev pub heap_parent : ℕ → ℕ
heap_parent pos = (pos - 1) / 2

-- The `while` of heap_SiftUp, `temp` being held outside the array, and the write after it.
unfoldable pub sift_up_loop : ℕ → List ℕ → ℕ → ℕ → Outcome (List ℕ)
sift_up_loop zero a temppos temp = hang
sift_up_loop (suc fuel) a temppos temp =
    let climb : Outcome (List ℕ) = (do
      above ← load a (heap_parent temppos)
      let raise : Outcome (List ℕ) =
          (store a temppos above >>= λ b. sift_up_loop fuel b (heap_parent temppos) temp)
      if ltb above temp then raise else store a temppos temp) in
    if ltb 0 temppos then climb else store a temppos temp

-- heap_SiftUp
unfoldable pub heap_sift_up : MaxHeap → ℕ → Outcome MaxHeap
heap_sift_up h pos = do
  temp ← load h.heap_array pos
  a ← sift_up_loop (pos + 1) h.heap_array pos temp
  ok (record h { heap_array = a })

-- The child that the loop of heap_SiftDown compares with, starting from the left one, `j`.
unfoldable pub larger_child : ℕ → List ℕ → ℕ → Outcome ℕ
larger_child size a j =
    if ltb j (size - 1)
    then (do left ← load a j; right ← load a (j + 1); ok (if ltb left right then j + 1 else j))
    else ok j

-- The `while` of heap_SiftDown, and the write after it.
unfoldable pub sift_down_loop : ℕ → ℕ → List ℕ → ℕ → ℕ → Outcome (List ℕ)
sift_down_loop zero size a i temp = hang
sift_down_loop (suc fuel) size a i temp =
    let descend : Outcome (List ℕ) = (do
      j ← larger_child size a (heap_lc i)
      below ← load a j
      let lower : Outcome (List ℕ) = (store a i below >>= λ b. sift_down_loop fuel size b j temp)
      if ltb temp below then lower else store a i temp) in
    if ltb (heap_lc i) size then descend else store a i temp

-- heap_SiftDown
unfoldable pub heap_sift_down : MaxHeap → ℕ → Outcome MaxHeap
heap_sift_down h pos = do
  temp ← load h.heap_array pos
  a ← sift_down_loop (h.current_size + 1) h.current_size h.heap_array pos temp
  ok (record h { heap_array = a })

unfoldable pub heap_insert : MaxHeap → ℕ → Outcome MaxHeap
heap_insert h newnode = if h.current_size == h.max_size then panic else (do
  a ← store h.heap_array h.current_size newnode
  h' ← heap_sift_up (record h { heap_array = a }) h.current_size
  ok (record h' { current_size = h.current_size + 1 }))

-- heap_removeMax
unfoldable pub heap_remove_max : MaxHeap → Outcome MaxHeap
heap_remove_max h = if heap_empty h then panic else (do
  t ← load h.heap_array 0
  last ← load h.heap_array (h.current_size - 1)
  a ← store h.heap_array 0 last
  b ← store a (h.current_size - 1) t
  let shorter : MaxHeap = record h { heap_array = b; current_size = h.current_size - 1 }
  if ltb 1 (h.current_size - 1) then heap_sift_down shorter 0 else ok shorter)

unfoldable pub heap_top : MaxHeap → Outcome ℕ
heap_top h = load h.heap_array 0

-- The loop of is_some with the rounds left.
unfoldable pub is_some_from : ℕ → ℕ → List ℕ → ℕ → Outcome Bool
is_some_from zero i a ppn = ok false
is_some_from (suc rounds) i a ppn =
    let rest = is_some_from rounds (i + 1) a ppn in
    (do x ← load a i; if x == ppn then ok true else rest)

unfoldable pub is_some : MaxHeap → ℕ → Outcome Bool
is_some m ppn = is_some_from m.current_size 0 m.heap_array ppn
