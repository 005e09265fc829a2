-- ===== src/MaxHeap/Tests.antt =====
-- Runs of the heap, and the theorems about it at concrete heaps.
use k210_os.Prelude.{zero, suc, ◌≡◌, refl, [], ◌∷◌, arith, ok, load, store, Yields}
use k210_os.MaxHeap.{
  MaxHeap, heap_insert, heap_remove_max, heap_sift_up, sift_up_loop, heap_sift_down, sift_down_loop,
  larger_child, heap_empty,
}
use k210_os.MaxHeap.Insert.{IsValid, Added, heap_insert-Added}
use k210_os.MaxHeap.Remove.{Removed, heap_remove_max-Removed}
use k210_os.MaxHeap.Order.{IsHeap}

abbrev three : MaxHeap
three = record { heap_array = 9 ∷ 4 ∷ 7 ∷ 0 ∷ []; current_size = 3; max_size = 4 }

three-IsValid : IsValid three
three-IsValid = record { ordered = ordered; within = omega arith; storage = omega arith }
  where
    ordered : IsHeap 3 three.heap_array
    ordered zero h k = absurd (omega arith)
    ordered (suc zero) h k = omega arith
    ordered (suc (suc zero)) h k = omega arith
    ordered (suc (suc (suc c))) h k = absurd (omega arith)

insert_eight :
    heap_insert three 8
    ≡ ok (record { heap_array = 9 ∷ 8 ∷ 7 ∷ 4 ∷ []; current_size = 4; max_size = 4 })
unfolding heap_insert heap_sift_up sift_up_loop load store
insert_eight = refl

remove_nine :
    heap_remove_max three
    ≡ ok (record { heap_array = 7 ∷ 4 ∷ 9 ∷ 0 ∷ []; current_size = 2; max_size = 4 })
unfolding heap_remove_max heap_empty heap_sift_down sift_down_loop larger_child load store
remove_nine = refl

heap_insert-Added_example : Yields (Added three 8) (heap_insert three 8)
heap_insert-Added_example = heap_insert-Added three 8 three-IsValid (omega arith)

heap_remove_max-Removed_example : Yields (Removed three) (heap_remove_max three)
heap_remove_max-Removed_example = heap_remove_max-Removed three three-IsValid (omega arith)
