-- ===== src/PageTable.antt =====
-- src/mm_page_table.c: page table entries, and the walk through the three levels of a table.
pub mod Mapping
mod Tests
use k210_os.Prelude.{
  ℕ, zero, suc, ◌+◌, ◌-◌, ◌*◌, ◌/◌, ◌%◌, ◌^◌, ◌<◌, ◌≤◌, ◌≡◌, ◌≢◌, ◌↔◌, ◌⊎◌, inl, inr, refl, sym, ap,
  ◌∙◌, min, max, Bool, true, false, not, ◌&&◌, ◌||◌, Option, none, some, List, [], ◌∷◌, ◌++◌, arith,
  ltb, leb, ◌==◌, if◌then◌else◌, lt→ltb, ltb→lt, ltb→le, leb→le, eq→==, ==→eq, Bool-cases, length,
  get_elem?, get_or, set, replicate, take, drop, length-append, length-set, length-replicate,
  get_elem?-eq-get_or, get_or-set, get_or-append, set-set, set-get_or, Outcome, ok, panic, fault,
  hang, ◌>>=◌, ◌>>◌, assert, from_option, load, store, load-ok, store-ok, Yields, Yields->>=,
  Yields-map, holds_below, holds_below→test,
}
use k210_os.Address.{word, page_size, ppn2pa}
use k210_os.Frame.{FrameAllocator, frame_alloc, frame_dealloc}

-- The words of 8 bytes in the physical pages, by page number and index.
abbrev pub Memory : Type 0
Memory = ℕ → ℕ → ℕ

abbrev pub put_word : Memory → ℕ × ℕ → ℕ → Memory
put_word m at x = λ ppn i. if ppn == at.0 && i == at.1 then x else m ppn i

-- memset of a page to 0
abbrev pub zero_page : Memory → ℕ → Memory
zero_page m frame = λ ppn i. if ppn == frame then 0 else m ppn i

-- The indices of the three levels, the highest first: `vpn & 511` from the last one on.
unfoldable pub vpn_indexes : ℕ → List ℕ
vpn_indexes vpn = vpn / 512 / 512 % 512 ∷ vpn / 512 % 512 ∷ vpn % 512 ∷ []

-- `(ppn << 10) | flags`, whose two parts have no bit in common, since flags are 8 bits
unfoldable pub pte_new : ℕ → ℕ → ℕ
pte_new ppn flags = ppn * 2 ^ 10 % word + flags % 256

unfoldable pub pte_get_ppn : ℕ → ℕ
pte_get_ppn pte = pte / 2 ^ 10 % 2 ^ 44

unfoldable pub pte_get_pa : ℕ → ℕ
pte_get_pa pte = ppn2pa (pte_get_ppn pte)

unfoldable pub pte_get_flags : ℕ → ℕ
pte_get_flags pte = pte % 256

-- the flags V, R, W and X: bits 0 to 3
unfoldable pub pte_is_valid : ℕ → Bool
pte_is_valid pte = not (pte_get_flags pte % 2 == 0)

unfoldable pub pte_readable : ℕ → Bool
pte_readable pte = not (pte_get_flags pte / 2 % 2 == 0)

unfoldable pub pte_writable : ℕ → Bool
pte_writable pte = not (pte_get_flags pte / 4 % 2 == 0)

unfoldable pub pte_excutable : ℕ → Bool
pte_excutable pte = not (pte_get_flags pte / 8 % 2 == 0)

-- `flags | PTE_V`
unfoldable pub with_valid : ℕ → ℕ
with_valid flags = if flags % 2 == 0 then flags + 1 else flags

-- `struct PageTable` with the memory and the frames it works on; the ring `fnode` from the root
-- on.
pub record PageTable : Type 0 where
  pub root_ppn : ℕ
  pub fnode : List ℕ
  pub memory : Memory
  pub frames : FrameAllocator

-- fvec_push puts a node behind the first one.
unfoldable pub fvec_push : List ℕ → ℕ → List ℕ
fvec_push [] ppn = ppn ∷ []
fvec_push (f ∷ fs) ppn = f ∷ ppn ∷ fs

-- fvec_destory gives the frames back from the second one on, and the first one last.
unfoldable pub dealloc_all : FrameAllocator → List ℕ → Outcome FrameAllocator
dealloc_all frames [] = ok frames
dealloc_all frames (f ∷ fs) = frame_dealloc frames f >>= λ frames'. dealloc_all frames' fs

unfoldable pub fvec_destory : FrameAllocator → List ℕ → Outcome FrameAllocator
fvec_destory frames [] = ok frames
fvec_destory frames (f ∷ fs) = dealloc_all frames (fs ++ f ∷ [])

unfoldable pub pt_new : Memory → FrameAllocator → Outcome PageTable
pt_new memory frames = do
  (frame, frames') ← frame_alloc frames
  ok (record {
    root_ppn = frame;
    fnode = frame ∷ [];
    memory = zero_page memory frame;
    frames = frames';
  })

unfoldable pub pt_free : PageTable → Outcome FrameAllocator
pt_free pt = fvec_destory pt.frames pt.fnode

-- The loop of find_pte_create on the indices that are left: where the entry is, by page number and
-- index.
unfoldable pub create_from : List ℕ → ℕ → PageTable → Outcome ((ℕ × ℕ) × PageTable)
create_from [] ppn pt = hang
create_from (i ∷ []) ppn pt = ok ((ppn, i), pt)
create_from (i ∷ j ∷ is) ppn pt =
    let below : Outcome ((ℕ × ℕ) × PageTable) =
      create_from (j ∷ is) (pte_get_ppn (pt.memory ppn i)) pt in
    let fresh : Outcome ((ℕ × ℕ) × PageTable) = (do
      (frame, frames') ← frame_alloc pt.frames
      let memory' : Memory = put_word (zero_page pt.memory frame) (ppn, i) (pte_new frame 1)
      create_from (j ∷ is) (pte_get_ppn (memory' ppn i))
          (record pt { memory = memory'; frames = frames'; fnode = fvec_push pt.fnode frame })) in
    if not (pte_is_valid (pt.memory ppn i)) then fresh else below

unfoldable pub find_pte_create : PageTable → ℕ → Outcome ((ℕ × ℕ) × PageTable)
find_pte_create self vpn = create_from (vpn_indexes vpn) self.root_ppn self

-- The loop of find_pte, or none for NULL.
unfoldable pub find_from : Memory → List ℕ → ℕ → Option (ℕ × ℕ)
find_from m [] ppn = none
find_from m (i ∷ []) ppn = some (ppn, i)
find_from m (i ∷ j ∷ is) ppn =
    let below : Option (ℕ × ℕ) = find_from m (j ∷ is) (pte_get_ppn (m ppn i)) in
    if not (pte_is_valid (m ppn i)) then none else below

unfoldable pub find_pte : Memory → ℕ → ℕ → Option (ℕ × ℕ)
find_pte m root_ppn vpn = find_from m (vpn_indexes vpn) root_ppn

unfoldable pub map : PageTable → ℕ → ℕ → ℕ → Outcome PageTable
map self vpn ppn flags = do
  (at, pt) ← find_pte_create self vpn
  (assert (not (pte_is_valid (pt.memory at.0 at.1)))
      >> ok (record pt { memory = put_word pt.memory at (pte_new ppn (with_valid flags)) }))

unfoldable pub unmap : PageTable → ℕ → Outcome PageTable
unmap self vpn = do
  (at, pt) ← find_pte_create self vpn
  (assert (pte_is_valid (pt.memory at.0 at.1))
      >> ok (record pt { memory = put_word pt.memory at 0 }))

-- MODE 8 for SV39, above the bits of the page number
unfoldable pub token : PageTable → ℕ
token self = 8 * 2 ^ 60 + self.root_ppn
