-- ===== src/Fat32/Directory/Sectors.antt =====
-- The sectors that the write of one directory entry changes.
use k210_os.Prelude.{
  ℕ, zero, suc, ◌+◌, ◌-◌, ◌*◌, ◌/◌, ◌%◌, ◌<◌, ◌≤◌, ◌≡◌, ◌≢◌, ◌⊎◌, inl, inr, refl, sym, ap, ◌∙◌, min,
  true, false, ◌&&◌, Option, some, List, [], ◌∷◌, arith, ltb, leb, ◌==◌, if◌then◌else◌, Bool-cases,
  length, get_or, take, drop, ok,
}
use native.Mathlib.Nat.{div-add-mod', mod-lt}
use k210_os.Fat32.Sector.{Disk, bsize, read32, write_byte, write_chunk}
use k210_os.Fat32.{Volume, u32, read_fat, first_sec_of_clus}
use k210_os.Fat32.Table.{IsMounted, read_fat-table}
use k210_os.Fat32.Entry.{Dirent, write_sectors, rw_clus_write}
use k210_os.Fat32.Entry.Chain.{nth}
use k210_os.Fat32.Entry.Cluster.{first_sec_of_clus-eq}
use k210_os.Fat32.Directory.OnDisk.{HasRoom, times_mono}

get_or-past : (x : ℕ) (xs : List ℕ) (n k : ℕ) → n ≡ suc k → get_or (x ∷ xs) n 0 ≡ get_or xs k 0
get_or-past x xs n k e = rw e

get_or-first : (x : ℕ) (xs : List ℕ) (n : ℕ) → n ≡ 0 → get_or (x ∷ xs) n 0 ≡ x
get_or-first x xs n e = rw e

write_chunk-value :
    (xs : List ℕ) (d : Disk) (sec off s o : ℕ)
    → write_chunk d sec off xs s o ≡ (
        if s == sec && (leb off o && ltb o (off + length xs))
        then get_or xs (o - off) 0 % 256
        else d s o)
unfolding write_chunk
write_chunk-value [] d sec off s o = ground arith
write_chunk-value (x ∷ xs) d sec off s o =
    write_chunk-value xs (write_byte d sec off x) sec (off + 1) s o
    ∙ elim (Bool-cases (ltb off o)) [
      | inl past ↦ ground (arith, get_or-past x xs (o - off) (o - (off + 1)) (ground arith))
      | inr here ↦ elim (Bool-cases (o == off)) [
        | inl e ↦ ground (arith, get_or-first x xs (o - off) (ground arith))
        | inr ne ↦ ground arith
      ]
    ]

take_all : (n : ℕ) (xs : List ℕ) → length xs ≡ n → take n xs ≡ xs
take_all zero [] e = refl
take_all zero (x ∷ xs) e = absurd (omega arith)
take_all (suc n) [] e = absurd (omega arith)
take_all (suc n) (x ∷ xs) e = ap (◌∷◌ x) (take_all n xs (omega arith))

write_sectors-write_chunk :
    (fat : Volume) (copyin : ℕ → ℕ → Option (List ℕ)) (fuel : ℕ) (d : Disk) (sec off n : ℕ)
    (bytes : List ℕ)
    → 0 < n
    → off % bsize + n ≤ bsize
    → copyin 0 n ≡ some bytes
    → write_sectors fat copyin (suc (suc fuel)) d sec off 0 n
      ≡ ok (n, write_chunk d sec (off % bsize) bytes)
unfolding write_sectors
write_sectors-write_chunk fat copyin fuel d sec off n bytes pos le e =
    let m : ℕ = min n (bsize - off % bsize) in
    let some_left : (n == 0) ≡ false = ground arith in
    let part : m ≡ n = omega arith in
    let none_left : (n - m == 0) ≡ true = ground (arith, part) in
    let got : copyin 0 m ≡ some bytes = ap (copyin 0) part ∙ e in
    rw (some_left, got, none_left)
      (ap (λ k. ok (k, write_chunk d sec (off % bsize) bytes)) (omega (arith, part)))

-- One entry written into one sector.
pub rw_clus_write-write_chunk :
    (fat : Volume) (d : Disk) (c r : ℕ) (de : List ℕ)
    → IsMounted fat
    → 2 ≤ c
    → c ≤ fat.data_clus_cnt + 1
    → r % 32 ≡ 0
    → r + 32 ≤ fat.byts_per_clus
    → length de ≡ 32
    → rw_clus_write fat (λ a n. some (take n (drop a de))) d c 0 r 32
      ≡ ok (32, write_chunk d (first_sec_of_clus fat c + r / bsize) (r % bsize) de)
unfolding rw_clus_write
rw_clus_write-write_chunk fat d c r de v lo hi a le len =
    let room = (first_sec_of_clus-eq fat c v lo hi).1 in
    let inside : ltb fat.byts_per_clus (u32 (r + 32)) ≡ false = ground (arith, v.bytes, room) in
    let sector : u32 (first_sec_of_clus fat c + r / bsize) ≡ first_sec_of_clus fat c + r / bsize =
      omega (arith, room, v.bytes) in
    let same : r % bsize % bsize ≡ r % bsize = omega arith in
    let first : ℕ = first_sec_of_clus fat c in
    let copyin : ℕ → ℕ → Option (List ℕ) = λ a n. some (take n (drop a de)) in
    rw inside (
      ap (λ b. write_sectors fat copyin 33 d (u32 (first + r / b)) (r % b) 0 32) v.sector
      ∙ (ap (λ s. write_sectors fat copyin 33 d s (r % bsize) 0 32) sector
          ∙ (write_sectors-write_chunk fat copyin 31 d (first + r / bsize) (r % bsize) 32 de
                (omega arith) (omega arith) (ap some (take_all 32 de len))
              ∙ ap (λ o. ok (32, write_chunk d (first + r / bsize) o de)) same)))

unique_quotient : (p a b q q' : ℕ) → q < p → q' < p → a * p + q ≡ b * p + q' → a ≡ b
unique_quotient p a b q q' h h' e = elim (Bool-cases (ltb a b)) [
  | inl lt ↦
      let more : (a + 1) * p ≤ b * p = times_mono (a + 1) b p (ground arith) in
      let next : (a + 1) * p ≡ a * p + p = grind arith in absurd (omega (arith, more, next))
  | inr ge ↦ elim (Bool-cases (ltb b a)) [
    | inl lt ↦
        let more : (b + 1) * p ≤ a * p = times_mono (b + 1) a p (ground arith) in
        let next : (b + 1) * p ≡ b * p + p = grind arith in absurd (omega (arith, more, next))
    | inr le ↦ ground arith
  ]
]

-- The place of a byte of a file: its sector, and its offset there.
abbrev pub sector_of : Volume → Disk → ℕ → ℕ → ℕ
sector_of fat d first x =
    first_sec_of_clus fat (nth fat d first (x / fat.byts_per_clus)) + x % fat.byts_per_clus / bsize

abbrev pub place_of : Volume → ℕ → ℕ
place_of fat x = x % fat.byts_per_clus % bsize

-- No cluster stands twice in the chain of a directory below an offset.
abbrev pub IsSimple : Volume → Disk → ℕ → ℕ → Type 0
IsSimple fat d first limit =
    (i j : ℕ)
    → i * fat.byts_per_clus < limit
    → j * fat.byts_per_clus < limit
    → nth fat d first i ≡ nth fat d first j
    → i ≡ j

pub same_sector :
    (fat : Volume) (d : Disk) (dp : Dirent) (limit x y : ℕ)
    → IsMounted fat
    → HasRoom fat d dp limit
    → IsSimple fat d dp.first_clus limit
    → x < limit
    → y < limit
    → sector_of fat d dp.first_clus x ≡ sector_of fat d dp.first_clus y
    → (x / fat.byts_per_clus ≡ y / fat.byts_per_clus)
      × (x % fat.byts_per_clus / bsize ≡ y % fat.byts_per_clus / bsize)
same_sector fat d dp limit x y v h simple lx ly e =
    let b : ℕ = fat.byts_per_clus in
    let pos : 0 < b = omega (arith, v.bytes, v.some_sectors) in
    let inx : x / b * b < limit = omega (arith, div-add-mod' x b) in
    let iny : y / b * b < limit = omega (arith, div-add-mod' y b) in
    let cx = h.chain (x / b) inx in
    let cy = h.chain (y / b) iny in
    let fx = (first_sec_of_clus-eq fat (nth fat d dp.first_clus (x / b)) v cx.0 cx.1).0 in
    let fy = (first_sec_of_clus-eq fat (nth fat d dp.first_clus (y / b)) v cy.0 cy.1).0 in
    let qx : x % b / bsize < fat.sec_per_clus = omega (arith, mod-lt x pos, v.bytes) in
    let qy : y % b / bsize < fat.sec_per_clus = omega (arith, mod-lt y pos, v.bytes) in
    let back : nth fat d dp.first_clus (x / b) - 2 ≡ nth fat d dp.first_clus (y / b) - 2 =
      unique_quotient fat.sec_per_clus (nth fat d dp.first_clus (x / b) - 2)
        (nth fat d dp.first_clus (y / b) - 2) (x % b / bsize) (y % b / bsize) qx qy
        (omega (arith, fx, fy, e)) in
    let same : nth fat d dp.first_clus (x / b) ≡ nth fat d dp.first_clus (y / b) =
      omega (arith, back, cx, cy) in
    let index : x / b ≡ y / b = simple (x / b) (y / b) inx iny same in
    (index, omega (arith, e, ap (first_sec_of_clus fat) same))

pub write_chunk-elsewhere :
    (xs : List ℕ) (d : Disk) (sec off s o : ℕ)
    → (s ≢ sec) ⊎ ((o < off) ⊎ (off + length xs ≤ o))
    → write_chunk d sec off xs s o ≡ d s o
write_chunk-elsewhere xs d sec off s o h = ground (arith, write_chunk-value xs d sec off s o)

pub write_chunk-here :
    (xs : List ℕ) (d : Disk) (sec off s o i : ℕ)
    → s ≡ sec
    → o ≡ off + i
    → i < length xs
    → write_chunk d sec off xs s o ≡ get_or xs i 0 % 256
write_chunk-here xs d sec off s o i e e' h =
    let back : o - off ≡ i = omega arith in
    let test : (s == sec && (leb off o && ltb o (off + length xs))) ≡ true = ground arith in
    write_chunk-value xs d sec off s o
    ∙ (ap (λ b. if b then get_or xs (o - off) 0 % 256 else d s o) test
        ∙ ap (λ k. get_or xs k 0 % 256) back)

-- A write behind the table leaves the table as it is.
pub read_fat-write_chunk :
    (fat : Volume) (d : Disk) (sec off c : ℕ) (xs : List ℕ)
    → IsMounted fat
    → fat.first_data_sec ≤ sec
    → c ≤ fat.data_clus_cnt + 1
    → read_fat fat (write_chunk d sec off xs) c ≡ read_fat fat d c
unfolding read32
read_fat-write_chunk fat d sec off c xs v le hi =
    let s : ℕ = fat.rsvd_sec_cnt + c * 4 / bsize in
    let o : ℕ = c * 4 % bsize in
    let ne : s ≢ sec = λ e. omega (arith, v.covers, v.before) in
    let kept : (k : ℕ) → write_chunk d sec off xs s k ≡ d s k =
      λ k. write_chunk-elsewhere xs d sec off s k (inl ne) in
    read_fat-table fat v c hi (write_chunk d sec off xs)
    ∙ (rw (kept o, kept (o + 1), kept (o + 2), kept (o + 3)) refl
        ∙ sym (read_fat-table fat v c hi d))
