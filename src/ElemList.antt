-- ===== src/ElemList.antt =====
-- src/list.c: doubly linked lists between a head and a tail. The links of all elements are a store;
-- 0 is NULL.
pub mod Queue
mod Tests
use k210_os.Prelude.{
  ℕ, zero, suc, ◌+◌, ◌-◌, ◌*◌, ◌/◌, ◌%◌, ◌^◌, ◌<◌, ◌≤◌, ◌≡◌, ◌≢◌, ◌↔◌, ◌⊎◌, inl, inr, refl, sym, ap,
  ◌∙◌, min, max, Bool, true, false, not, ◌&&◌, ◌||◌, Option, none, some, List, [], ◌∷◌, ◌++◌, map,
  arith, ltb, leb, ◌==◌, if◌then◌else◌, lt→ltb, ltb→lt, ltb→le, leb→le, eq→==, ==→eq, Bool-cases,
  length, get_elem?, get_or, set, replicate, take, drop, length-append, length-set,
  length-replicate, get_elem?-eq-get_or, get_or-set, get_or-append, set-set, set-get_or, Outcome,
  ok, panic, fault, hang, ◌>>=◌, ◌>>◌, assert, from_option, load, store, load-ok, store-ok, Yields,
  Yields->>=, Yields-map, holds_below, holds_below→test,
}

-- the `prev` and `next` of every element
pub record Links : Type 0 where
  pub prev : ℕ → ℕ
  pub next : ℕ → ℕ

abbrev pub set_prev : Links → ℕ → ℕ → Links
set_prev l n x = record l { prev = λ k. if k == n then x else l.prev k }

abbrev pub set_next : Links → ℕ → ℕ → Links
set_next l n x = record l { next = λ k. if k == n then x else l.next k }

unfoldable pub list_init : Links → ℕ → ℕ → Links
list_init l head tail =
    set_next (set_prev (set_next (set_prev l head 0) head tail) tail head) tail 0

unfoldable pub list_insert_before : Links → ℕ → ℕ → Links
list_insert_before l before elem =
    let l1 : Links = set_next l (l.prev before) elem in
    let l2 : Links = set_prev l1 elem (l1.prev before) in
    set_prev (set_next l2 elem before) before elem

unfoldable pub list_push : Links → ℕ → ℕ → Links
list_push l head elem = list_insert_before l (l.next head) elem

unfoldable pub list_append : Links → ℕ → ℕ → Links
list_append l tail elem = list_insert_before l tail elem

-- An element that is in no list has NULL links, which are not to be followed.
unfoldable pub list_remove : Links → ℕ → Outcome Links
list_remove l elem =
    if l.prev elem == 0
    then fault
    else (let l1 : Links = set_next l (l.prev elem) (l.next elem) in
        if l1.next elem == 0
        then fault
        else ok (set_next (set_prev (set_prev l1 (l1.next elem) (l1.prev elem)) elem 0) elem 0))

unfoldable pub list_pop : Links → ℕ → Outcome (ℕ × Links)
list_pop l head = list_remove l (l.next head) >>= λ l'. ok (l.next head, l')

unfoldable pub list_tail : Links → ℕ → ℕ
list_tail l tail = l.prev tail

-- The loops of elem_find and list_len from an element on.
unfoldable pub elem_find_from : ℕ → Links → ℕ → ℕ → ℕ → Outcome Bool
elem_find_from zero l tail obj elem = hang
elem_find_from (suc fuel) l tail obj elem =
    let rest : Outcome Bool = elem_find_from fuel l tail obj (l.next elem) in
    if elem == tail then ok false else if elem == obj then ok true else rest

unfoldable pub list_len_from : ℕ → Links → ℕ → ℕ → Outcome ℕ
list_len_from zero l tail elem = hang
list_len_from (suc fuel) l tail elem =
    let rest : Outcome ℕ =
      (list_len_from fuel l tail (l.next elem) >>= λ n. ok ((n + 1) % 2 ^ 32)) in
    if elem == tail then ok 0 else rest

-- `fuel` bounds the elements that are met.
unfoldable pub elem_find : ℕ → Links → ℕ → ℕ → ℕ → Outcome Bool
elem_find fuel l head tail obj = elem_find_from fuel l tail obj (l.next head)

unfoldable pub list_len : ℕ → Links → ℕ → ℕ → Outcome ℕ
list_len fuel l head tail = list_len_from fuel l tail (l.next head)

unfoldable pub list_empty : Links → ℕ → ℕ → Bool
list_empty l head tail = l.next head == tail
