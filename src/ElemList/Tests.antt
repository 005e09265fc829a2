-- ===== src/ElemList/Tests.antt =====
-- A list with the head 1 and the tail 2, in which element 5 stands.
use k210_os.Prelude.{refl, ◌==◌, [], ◌∷◌, arith, if◌then◌else◌}
use k210_os.ElemList.{Links, list_append}
use k210_os.ElemList.Queue.{mem, Chain, end, link, list_append-Chain}

abbrev links : Links
links = record {
  next = λ k. if k == 1 then 5 else if k == 5 then 2 else 0;
  prev = λ k. if k == 5 then 1 else if k == 2 then 5 else 0;
}

links-Chain : Chain links 2 1 (5 ∷ [])
unfolding mem
links-Chain =
    let last : Chain links 2 5 [] = end (λ e. absurd (omega arith)) refl refl in
    link {a = 1} (λ e. absurd (omega arith)) refl refl refl last

list_append-Chain_example : Chain (list_append links 2 7) 2 1 (5 ∷ 7 ∷ [])
unfolding mem
list_append-Chain_example =
    list_append-Chain links 2 1 7 (5 ∷ []) links-Chain refl (λ e. absurd (omega arith))
