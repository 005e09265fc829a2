-- ===== src/PageTable/Mapping.antt =====
-- map and unmap of a page whose tables exist.
use k210_os.Prelude.{
  ℕ, ◌/◌, ◌%◌, ◌^◌, ◌<◌, ◌≡◌, inl, inr, refl, sym, ◌∙◌, true, false, ◌&&◌, none, some, List, [],
  ◌∷◌, arith, ◌==◌, if◌then◌else◌, Bool-cases, Outcome, ok, panic, ◌>>=◌, Yields, Yields->>=,
  Yields-map,
}
use k210_os.PageTable.{
  Memory, put_word, vpn_indexes, pte_new, pte_get_ppn, pte_get_flags, pte_is_valid, with_valid,
  PageTable, create_from, find_pte_create, find_from, find_pte, map, unmap,
}

-- An entry gives back the page number and the flags that it was made of.
pub pte_get-pte_new :
    (ppn flags : ℕ)
    → ppn < 2 ^ 44
    → flags < 256
    → (pte_get_ppn (pte_new ppn flags) ≡ ppn) × (pte_get_flags (pte_new ppn flags) ≡ flags)
unfolding pte_get_ppn pte_get_flags pte_new
pte_get-pte_new ppn flags hp hf = (omega arith, omega arith)

-- with_valid sets the bit V and keeps the others.
pub with_valid-eq :
    (flags : ℕ)
    → flags < 256
    → (with_valid flags < 256) × (with_valid flags % 2 ≡ 1) × (with_valid flags / 2 ≡ flags / 2)
unfolding with_valid
with_valid-eq flags h = ground arith

find_from-step :
    (m : Memory) (i j : ℕ) (is : List ℕ) (ppn : ℕ) (at : ℕ × ℕ)
    → find_from m (i ∷ j ∷ is) ppn ≡ some at
    → (pte_is_valid (m ppn i) ≡ true) × (find_from m (j ∷ is) (pte_get_ppn (m ppn i)) ≡ some at)
unfolding find_from
find_from-step m i j is ppn at e = elim (Bool-cases (pte_is_valid (m ppn i))) [
  | inl v ↦
      let further : find_from m (i ∷ j ∷ is) ppn ≡ find_from m (j ∷ is) (pte_get_ppn (m ppn i)) =
        rw v refl in
      (v, sym further ∙ e)
  | inr v ↦
      let gone : find_from m (i ∷ j ∷ is) ppn ≡ none = rw v refl in
      let clash : none ≡ some at = sym gone ∙ e in cc
]

-- Where find_pte finds the entry, find_pte_create finds it too and changes nothing.
create_from-find_from :
    (is : List ℕ) (ppn : ℕ) (pt : PageTable) (at : ℕ × ℕ)
    → find_from pt.memory is ppn ≡ some at
    → create_from is ppn pt ≡ ok (at, pt)
unfolding create_from find_from
create_from-find_from [] ppn pt at e = cc
create_from-find_from (i ∷ []) ppn pt at e = let same : (ppn, i) ≡ at = cc in rw same refl
create_from-find_from (i ∷ j ∷ is) ppn pt at e =
    let (v, e') = find_from-step pt.memory i j is ppn at e in
    rw (v, create_from) (create_from-find_from (j ∷ is) (pte_get_ppn (pt.memory ppn i)) pt at e')

-- Writing an entry that was not valid leaves the way to it as it is.
find_from-put_word :
    (m : Memory) (is : List ℕ) (ppn : ℕ) (at : ℕ × ℕ) (x : ℕ)
    → find_from m is ppn ≡ some at
    → pte_is_valid (m at.0 at.1) ≡ false
    → find_from (put_word m at x) is ppn ≡ some at
unfolding find_from
find_from-put_word m [] ppn at x e h = cc
find_from-put_word m (i ∷ []) ppn at x e h = e
find_from-put_word m (i ∷ j ∷ is) ppn at x e h =
    let (v, e') = find_from-step m i j is ppn at e in
    elim (Bool-cases (ppn == at.0 && i == at.1)) [
      | inl there ↦
          let same_page : ppn ≡ at.0 = ground arith in
          let same_index : i ≡ at.1 = ground arith in
          let v' : pte_is_valid (m at.0 at.1) ≡ true = rw (sym same_page, sym same_index) v in
          let clash : true ≡ false = sym v' ∙ h in cc
      | inr apart ↦ rw (apart, v) (find_from-put_word m (j ∷ is) (pte_get_ppn (m ppn i)) at x e' h)
    ]

pte_is_valid-odd : (pte : ℕ) → pte_get_flags pte % 2 ≡ 1 → pte_is_valid pte ≡ true
unfolding pte_is_valid
pte_is_valid-odd pte h =
    let odd : (pte_get_flags pte % 2 == 0) ≡ false = ground arith in rw odd refl

-- What map leaves behind: find_pte finds the entry where it was, with the page number and flags
-- asked for and V; every other word of the memory, the frames and the nodes are as they were.
pub record Mapped (pt : PageTable) (vpn ppn flags : ℕ) (at : ℕ × ℕ) (pt' : PageTable) : Type 0 where
  pub found : find_pte pt'.memory pt'.root_ppn vpn ≡ some at
  pub page : pte_get_ppn (pt'.memory at.0 at.1) ≡ ppn
  pub flagged : pte_get_flags (pt'.memory at.0 at.1) ≡ with_valid flags
  pub valid : pte_is_valid (pt'.memory at.0 at.1) ≡ true
  pub elsewhere : (p i : ℕ) → (p == at.0 && i == at.1) ≡ false → pt'.memory p i ≡ pt.memory p i
  pub rest : (pt'.frames ≡ pt.frames) × (pt'.fnode ≡ pt.fnode) × (pt'.root_ppn ≡ pt.root_ppn)

-- map of a page whose tables exist and whose entry is not valid, with a page number of 44 bits and
-- flags of 8: it returns, find_pte then finds the entry where it was, the entry gives back the page
-- number, the flags and V, and every other word of the memory, the frames and the nodes of the
-- table are as they were.
pub map-Mapped :
    (pt : PageTable) (vpn ppn flags : ℕ) (at : ℕ × ℕ)
    → find_pte pt.memory pt.root_ppn vpn ≡ some at
    → pte_is_valid (pt.memory at.0 at.1) ≡ false
    → ppn < 2 ^ 44
    → flags < 256
    → Yields (Mapped pt vpn ppn flags at) (map pt vpn ppn flags)
unfolding map find_pte find_pte_create
map-Mapped pt vpn ppn flags at e free hp hf =
    let (small, odd, same) = with_valid-eq flags hf in
    let (page, flagged) = pte_get-pte_new ppn (with_valid flags) hp small in
    let here : (at.0 == at.0 && at.1 == at.1) ≡ true = ground arith in
    rw (create_from-find_from (vpn_indexes vpn) pt.root_ppn pt at e, map)
      (rw free (record {
        found =
            find_from-put_word pt.memory (vpn_indexes vpn) pt.root_ppn at
              (pte_new ppn (with_valid flags)) e free;
        page = rw here page;
        flagged = rw here flagged;
        valid = rw here (pte_is_valid-odd (pte_new ppn (with_valid flags)) (rw flagged odd));
        elsewhere = λ p i apart. rw apart refl;
        rest = (refl, refl, refl);
      }))

-- map panics on a page whose entry is valid, and unmap on one whose entry is not.
pub map-panic :
    (pt : PageTable) (vpn ppn flags : ℕ) (at : ℕ × ℕ)
    → find_pte pt.memory pt.root_ppn vpn ≡ some at
    → (if pte_is_valid (pt.memory at.0 at.1) then map pt vpn ppn flags else unmap pt vpn) ≡ panic
unfolding map unmap find_pte find_pte_create
map-panic pt vpn ppn flags at e = elim (Bool-cases (pte_is_valid (pt.memory at.0 at.1))) [
  | inl v ↦ rw v (rw (create_from-find_from (vpn_indexes vpn) pt.root_ppn pt at e, map) (rw v refl))
  | inr v ↦
      rw v (rw (create_from-find_from (vpn_indexes vpn) pt.root_ppn pt at e, unmap) (rw v refl))
]

-- map and then unmap
unfoldable pub map_unmap : PageTable → ℕ → ℕ → ℕ → Outcome PageTable
map_unmap pt vpn ppn flags = map pt vpn ppn flags >>= λ pt'. unmap pt' vpn

-- The table and memory after a page was mapped and unmapped again.
pub record Restored (pt : PageTable) (vpn : ℕ) (at : ℕ × ℕ) (pt' : PageTable) : Type 0 where
  pub cleared : pt'.memory at.0 at.1 ≡ 0
  pub elsewhere : (p i : ℕ) → (p == at.0 && i == at.1) ≡ false → pt'.memory p i ≡ pt.memory p i
  pub rest : (pt'.frames ≡ pt.frames) × (pt'.fnode ≡ pt.fnode) × (pt'.root_ppn ≡ pt.root_ppn)

unmap-Restored :
    (pt : PageTable) (vpn : ℕ) (at : ℕ × ℕ)
    → find_pte pt.memory pt.root_ppn vpn ≡ some at
    → pte_is_valid (pt.memory at.0 at.1) ≡ true
    → Yields (Restored pt vpn at) (unmap pt vpn)
unfolding unmap find_pte find_pte_create
unmap-Restored pt vpn at e v =
    let here : (at.0 == at.0 && at.1 == at.1) ≡ true = ground arith in
    rw (create_from-find_from (vpn_indexes vpn) pt.root_ppn pt at e, unmap)
      (rw v (record {
        cleared = rw here refl;
        elsewhere = λ p i apart. rw apart refl;
        rest = (refl, refl, refl);
      }))

-- A page that is mapped and unmapped again leaves an entry of 0, and every other word of the
-- memory, the frames and the nodes of the table as they were, when its tables exist and its entry
-- was not valid.
pub unmap-map :
    (pt : PageTable) (vpn ppn flags : ℕ) (at : ℕ × ℕ)
    → find_pte pt.memory pt.root_ppn vpn ≡ some at
    → pte_is_valid (pt.memory at.0 at.1) ≡ false
    → ppn < 2 ^ 44
    → flags < 256
    → Yields (Restored pt vpn at) (map_unmap pt vpn ppn flags)
unfolding map_unmap
unmap-map pt vpn ppn flags at e free hp hf =
    Yields->>= (Mapped pt vpn ppn flags at) (Restored pt vpn at) (map pt vpn ppn flags)
      (λ pt'. unmap pt' vpn) (map-Mapped pt vpn ppn flags at e free hp hf)
      (λ pt' m.
        Yields-map (Restored pt' vpn at) (Restored pt vpn at) (unmap pt' vpn)
          (λ pt2 r. record {
            cleared = r.cleared;
            elsewhere = λ p i apart. r.elsewhere p i apart ∙ m.elsewhere p i apart;
            rest = (r.rest.0 ∙ m.rest.0, r.rest.1 ∙ m.rest.1, r.rest.2 ∙ m.rest.2);
          })
          (unmap-Restored pt' vpn at m.found m.valid))
