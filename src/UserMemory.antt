-- ===== src/UserMemory.antt =====
-- src/mm_page_table.c: va2pa, and the copies between the kernel and the user's address space.
pub mod Copying
mod Tests
use k210_os.Prelude.{
  ℕ, zero, suc, ◌+◌, ◌-◌, ◌*◌, ◌/◌, ◌%◌, ◌^◌, ◌<◌, ◌≤◌, ◌≡◌, ◌≢◌, ◌↔◌, ◌⊎◌, inl, inr, refl, sym, ap,
  ◌∙◌, min, max, Bool, true, false, not, ◌&&◌, ◌||◌, Option, none, some, List, [], ◌∷◌, ◌++◌, map,
  arith, ltb, leb, ◌==◌, if◌then◌else◌, lt→ltb, ltb→lt, ltb→le, leb→le, eq→==, ==→eq, Bool-cases,
  length, get_elem?, get_or, set, replicate, take, drop, length-append, length-set,
  length-replicate, get_elem?-eq-get_or, get_or-set, get_or-append, set-set, set-get_or, Outcome,
  ok, panic, fault, hang, ◌>>=◌, ◌>>◌, assert, from_option, load, store, load-ok, store-ok, Yields,
  Yields->>=, Yields-map, holds_below, holds_below→test,
}
use k210_os.Address.{word, page_size, get_offset, ppn2pa, va2vpn, vpn2va}
use k210_os.PageTable.{Memory, pte_get_ppn, find_pte}

-- A byte of the memory, little-endian in its word.
unfoldable pub get_byte : Memory → ℕ → ℕ
get_byte m pa = m (pa / page_size) (pa % page_size / 8) / 256 ^ (pa % 8) % 256

unfoldable pub set_byte : Memory → ℕ → ℕ → Memory
set_byte m pa v = λ ppn i.
    let old : ℕ = m ppn i in
    if ppn == pa / page_size && i == pa % page_size / 8
    then old - old / 256 ^ (pa % 8) % 256 * 256 ^ (pa % 8) + v % 256 * 256 ^ (pa % 8)
    else old

-- memmove out of and into the memory at a physical address
unfoldable pub get_bytes : Memory → ℕ → ℕ → List ℕ
get_bytes m pa zero = []
get_bytes m pa (suc n) = get_byte m pa ∷ get_bytes m (pa + 1) n

unfoldable pub set_bytes : Memory → ℕ → List ℕ → Memory
set_bytes m pa [] = m
set_bytes m pa (x ∷ xs) = set_bytes (set_byte m pa x) (pa + 1) xs

-- The address at an offset in the page of an entry; the page's address and the offset have no bit
-- in common.
unfoldable pub in_page : Memory → Option (ℕ × ℕ) → ℕ → Outcome ℕ
in_page m none off = panic
in_page m (some at) off = ok (ppn2pa (pte_get_ppn (m at.0 at.1)) + off)

-- The address space of the caller has its table at `root`.
unfoldable pub va2pa : Memory → ℕ → ℕ → Outcome ℕ
va2pa m root va = in_page m (find_pte m root (va2vpn va)) (get_offset va)

-- The `while` of copyin2: the bytes that it copies.
unfoldable pub copyin_loop : ℕ → Memory → ℕ → ℕ → ℕ → Outcome (List ℕ)
copyin_loop zero m root srcva len = hang
copyin_loop (suc fuel) m root srcva len =
    let va : ℕ = vpn2va (va2vpn srcva) in
    let n : ℕ = min len (page_size - (srcva - va)) in
    let step : Outcome (List ℕ) = (do
      pa ← va2pa m root va
      rest ← copyin_loop fuel m root ((va + page_size) % word) (len - n)
      ok (get_bytes m (pa + (srcva - va)) n ++ rest)) in
    if ltb 0 len then step else ok []

unfoldable pub copyin2 : Memory → ℕ → ℕ → ℕ → Outcome (List ℕ)
copyin2 m root srcva len = copyin_loop (len + 1) m root srcva len

-- The `while` of copyout2.
unfoldable pub copyout_loop : ℕ → Memory → ℕ → ℕ → List ℕ → Outcome Memory
copyout_loop zero m root dstva src = hang
copyout_loop (suc fuel) m root dstva src =
    let va : ℕ = vpn2va (va2vpn dstva) in
    let n : ℕ = min (length src) (page_size - (dstva - va)) in
    let step : Outcome Memory = (do
      pa ← va2pa m root va
      copyout_loop fuel (set_bytes m (pa + (dstva - va)) (take n src)) root
          ((va + page_size) % word) (drop n src)) in
    if ltb 0 (length src) then step else ok m

-- VMA_START
abbrev pub vma_start : ℕ
vma_start = 0x40000000

-- The memory, or none for -1; `sz` is the caller's base_size.
unfoldable pub copyout2 : Memory → ℕ → ℕ → ℕ → List ℕ → Outcome (Option Memory)
copyout2 m root sz dstva src =
    if (ltb sz ((dstva + length src) % word) || leb sz dstva) && ltb dstva vma_start
    then ok none
    else (copyout_loop (length src + 1) m root dstva src >>= λ m'. ok (some m'))

-- The inner `while` of copyinstr2: the bytes up to the end of the string, and whether it was met.
unfoldable pub scan : Memory → ℕ → ℕ → List ℕ × Bool
scan m pa zero = ([], false)
scan m pa (suc n) =
    let rest : List ℕ × Bool = scan m (pa + 1) n in
    if get_byte m pa == 0 then (0 ∷ [], true) else (get_byte m pa ∷ rest.0, rest.1)

-- The outer one.
unfoldable pub copyinstr_loop : ℕ → Memory → ℕ → ℕ → ℕ → Outcome (List ℕ × Bool)
copyinstr_loop zero m root srcva most = hang
copyinstr_loop (suc fuel) m root srcva most =
    let va : ℕ = vpn2va (va2vpn srcva) in
    let n : ℕ = min most (page_size - (srcva - va)) in
    let step : Outcome (List ℕ × Bool) = (do
      pa ← va2pa m root va
      let here : List ℕ × Bool = scan m (pa + (srcva - va)) n
      let rest : Outcome (List ℕ × Bool) =
          (copyinstr_loop fuel m root ((va + page_size) % word) (most - n) >>= λ r.
          ok (here.0 ++ r.0, r.1))
      if here.1 then ok here else rest) in
    if ltb 0 most then step else ok ([], false)

-- The bytes written to `dst`, and whether the answer is 0 rather than -1.
unfoldable pub copyinstr2 : Memory → ℕ → ℕ → ℕ → ℕ → Outcome (List ℕ × Bool)
copyinstr2 m root sz srcva most =
    if ltb sz ((srcva + most) % word) || leb sz srcva
    then ok ([], false)
    else copyinstr_loop (most + 1) m root srcva most
