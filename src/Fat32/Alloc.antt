-- ===== src/Fat32/Alloc.antt =====
-- alloc_clus takes the first free entry of the table.
use k210_os.Prelude.{
  ℕ, zero, suc, ◌+◌, ◌-◌, ◌*◌, ◌/◌, ◌%◌, ◌^◌, ◌<◌, ◌≤◌, ◌≡◌, ◌≢◌, inl, inr, refl, sym, ap, ◌∙◌,
  false, ◌&&◌, Option, none, some, arith, ltb, leb, ◌==◌, if◌then◌else◌, ltb→lt, ==→eq, Bool-cases,
}
use k210_os.Fat32.Sector.{Disk, bsize, read_byte, read32, write32, zero_sector}
use k210_os.Fat32.{
  Volume, u32, fat32_feoc, first_sec_of_clus, zero_from, zero_clus, free_entry, alloc_from,
  alloc_clus,
}
use k210_os.Fat32.Table.{IsMounted, table, table-write32}

-- the first of `n` numbers from the `a`-th on that is 0, if there is one
abbrev pub IsFirst : (ℕ → ℕ) → ℕ → ℕ → Option ℕ → Type 0
IsFirst f a n none = (k : ℕ) → a ≤ k → k < a + n → f k ≢ 0
IsFirst f a n (some c) = (a ≤ c) × (c < a + n) × (f c ≡ 0) × ((k : ℕ) → a ≤ k → k < c → f k ≢ 0)

free_entry-IsFirst :
    (fat : Volume) (d : Disk) (sec rounds j : ℕ)
    → IsFirst (λ k. read32 d sec (k * 4)) j rounds (free_entry fat rounds d sec j)
unfolding free_entry
free_entry-IsFirst fat d sec zero j = λ k lo hi. absurd (omega arith)
free_entry-IsFirst fat d sec (suc rounds) j = elim (Bool-cases (read32 d sec (j * 4) == 0)) [
  | inl e ↦
      rw e (
        omega arith,
        omega arith,
        ==→eq (read32 d sec (j * 4)) 0 e,
        λ k lo hi. absurd (omega arith),
      )
  | inr e ↦
      let ne : read32 d sec (j * 4) ≢ 0 = ground arith in
      rw e (
        further ne (free_entry fat rounds d sec (j + 1))
          (free_entry-IsFirst fat d sec rounds (j + 1)))
]
  where
    here :
        read32 d sec (j * 4) ≢ 0
        → (k : ℕ) → j ≤ k
        → (j + 1 ≤ k → read32 d sec (k * 4) ≢ 0)
        → read32 d sec (k * 4) ≢ 0
    here ne k lo on = elim (Bool-cases (k == j)) [
      | inl same ↦ rw (==→eq k j same) ne
      | inr other ↦ on (ground arith)
    ]

    further :
        read32 d sec (j * 4) ≢ 0
        → (r : Option ℕ) → IsFirst (λ k. read32 d sec (k * 4)) (j + 1) rounds r
        → IsFirst (λ k. read32 d sec (k * 4)) j (suc rounds) r
    further ne none f = λ k lo hi. here ne k lo (λ lo'. f k lo' (omega arith))
    further ne (some c) (lo', hi', z, f) =
        (omega arith, omega arith, z, λ k lo hi. here ne k lo (λ on. f k on hi))

module _ (fat : Volume) (d : Disk) where
  -- What alloc_clus may do: nothing when the table is full, with 1 for an answer; or mark the first
  -- free cluster as the last of a chain and clear its sectors.
  pub data Allocated : ℕ × Disk → Type 0 where
    full : ((k : ℕ) → k < fat.fat_sz * 128 → table fat d k ≢ 0) → Allocated (1, d)
    taken :
        {c : ℕ} {d' : Disk}
        → c < fat.fat_sz * 128
        → table fat d c ≡ 0
        → ((k : ℕ) → k < c → table fat d k ≢ 0)
        → ((k : ℕ)
            → k < fat.fat_sz * 128
            → table fat d' k ≡ (if c == k then fat32_feoc else table fat d k))
        → ((s j : ℕ) → s < fat.sec_per_clus → read_byte d' (first_sec_of_clus fat c + s) j ≡ 0)
        → Allocated (c, d')

-- Clearing sectors from `sec` on clears them and no other.
zero_from-eq :
    (fat : Volume) (rounds sec : ℕ) (d : Disk) (s j : ℕ)
    → sec + rounds < 2 ^ 32
    → zero_from fat rounds sec d s j ≡ (if leb sec s && ltb s (sec + rounds) then 0 else d s j)
unfolding zero_from
zero_from-eq fat zero sec d s j h =
    let none_there : (leb sec s && ltb s (sec + 0)) ≡ false = ground arith in rw none_there
zero_from-eq fat (suc rounds) sec d s j h =
    let next : u32 (sec + 1) ≡ sec + 1 = omega arith in
    rw (next, zero_from-eq fat rounds (sec + 1) (zero_sector d sec) s j (omega arith))
      (ground arith)

times_mono : (k a b : ℕ) → a ≤ b → k * a ≤ k * b
times_mono k a b h = grind arith

mul_mono : (a b p : ℕ) → a ≤ b → a * p ≤ b * p
mul_mono a b p h = grind arith

not_reserved : (f : ℕ → ℕ) (c : ℕ) → f 0 ≢ 0 → f 1 ≢ 0 → f c ≡ 0 → 2 ≤ c
not_reserved f zero h0 h1 z = absurd (h0 z)
not_reserved f (suc zero) h0 h1 z = absurd (h1 z)
not_reserved f (suc (suc c)) h0 h1 z = omega arith

table_bound : (fat : Volume) → IsMounted fat → fat.fat_sz < 2 ^ 25
table_bound fat v =
    let one_each : fat.fat_sz * 128 * 1 ≤ fat.fat_sz * 128 * fat.sec_per_clus =
      times_mono (fat.fat_sz * 128) 1 fat.sec_per_clus v.some_sectors in
    omega (arith, one_each, v.sectors)

-- The sectors of a cluster lie behind the table.
behind :
    (fat : Volume) (c : ℕ)
    → IsMounted fat
    → 2 ≤ c
    → c < fat.fat_sz * 128
    → (fat.first_data_sec ≤ first_sec_of_clus fat c)
      × (first_sec_of_clus fat c + fat.sec_per_clus < 2 ^ 32)
unfolding first_sec_of_clus
behind fat c v lo hi =
    let wide : fat.fat_sz < 2 ^ 25 = table_bound fat v in
    let back : (c + 2 ^ 32 - 2) % 2 ^ 32 ≡ c - 2 = omega (arith, wide) in
    let inside : (c - 2 + 1) * fat.sec_per_clus ≤ fat.fat_sz * 128 * fat.sec_per_clus =
      mul_mono (c - 2 + 1) (fat.fat_sz * 128) fat.sec_per_clus (omega arith) in
    rw back (
      omega (arith, inside, v.some_sectors, v.sectors),
      omega (arith, inside, v.some_sectors, v.sectors),
    )

-- Clearing a cluster does not touch the table.
table-zero_clus :
    (fat : Volume) (d : Disk) (c k : ℕ)
    → IsMounted fat
    → 2 ≤ c
    → c < fat.fat_sz * 128
    → k < fat.fat_sz * 128
    → table fat (zero_clus fat d c) k ≡ table fat d k
unfolding zero_clus read32
table-zero_clus fat d c k v lo hi h =
    let (after, room) = behind fat c v lo hi in
    let sec : ℕ = fat.rsvd_sec_cnt + k * 4 / bsize in
    let before : leb (first_sec_of_clus fat c) sec ≡ false = ground (arith, after, v.before) in
    let same : (o : ℕ)
        → zero_from fat fat.sec_per_clus (first_sec_of_clus fat c) d sec o ≡ d sec o =
      λ o.
        zero_from-eq fat fat.sec_per_clus (first_sec_of_clus fat c) d sec o room ∙ rw before refl in
    let o : ℕ = k * 4 % bsize in rw (same o, same (o + 1), same (o + 2), same (o + 3))

take_entry :
    (fat : Volume) (d : Disk) (i j : ℕ)
    → IsMounted fat
    → table fat d 0 ≢ 0
    → table fat d 1 ≢ 0
    → i < fat.fat_sz
    → j < 128
    → ((k : ℕ) → k < i * 128 + j → table fat d k ≢ 0)
    → table fat d (i * 128 + j) ≡ 0
    → Allocated fat d (
      i * 128 + j,
      zero_clus fat (write32 d (fat.rsvd_sec_cnt + i) (j * 4) fat32_feoc) (i * 128 + j),
    )
unfolding zero_clus
take_entry fat d i j v reserved0 reserved1 hi hj before free =
    let c : ℕ = i * 128 + j in
    let sec : fat.rsvd_sec_cnt + c * 4 / bsize ≡ fat.rsvd_sec_cnt + i = omega arith in
    let off : c * 4 % bsize ≡ j * 4 = omega arith in
    let lo : 2 ≤ c = not_reserved (table fat d) c reserved0 reserved1 free in
    let (after, room) = behind fat c v lo (omega arith) in
    taken (omega arith) free before
      (λ k h.
        table-zero_clus fat (write32 d (fat.rsvd_sec_cnt + i) (j * 4) fat32_feoc) c k v lo
          (omega arith) h
        ∙ (ap (λ x. table fat x k) (rw (sec, off) refl)
            ∙ table-write32 fat d c k fat32_feoc (omega arith)))
      (λ s b h.
        rw
          (zero_from-eq fat fat.sec_per_clus (first_sec_of_clus fat c)
            (write32 d (fat.rsvd_sec_cnt + i) (j * 4) fat32_feoc) (first_sec_of_clus fat c + s) b
            room)
          (ground arith))

-- What one sector of the table says of the entries in it.
sector_entries :
    (fat : Volume) (d : Disk) (i k : ℕ)
    → i * 128 ≤ k
    → k < i * 128 + 128
    → table fat d k ≡ read32 d (fat.rsvd_sec_cnt + i) ((k - i * 128) * 4)
sector_entries fat d i k lo hi =
    let sec : fat.rsvd_sec_cnt + k * 4 / bsize ≡ fat.rsvd_sec_cnt + i = omega arith in
    let off : k * 4 % bsize ≡ (k - i * 128) * 4 = omega arith in rw (sec, off)

alloc_from-Allocated :
    (fat : Volume) (d : Disk) (rounds i sec : ℕ)
    → IsMounted fat
    → table fat d 0 ≢ 0
    → table fat d 1 ≢ 0
    → i + rounds ≡ fat.fat_sz
    → sec ≡ fat.rsvd_sec_cnt + i
    → ((k : ℕ) → k < i * 128 → table fat d k ≢ 0)
    → Allocated fat d (alloc_from fat rounds d sec i)
unfolding alloc_from
alloc_from-Allocated fat d zero i sec v h0 h1 e es before = full (λ k h. before k (omega arith))
alloc_from-Allocated fat d (suc rounds) i sec v h0 h1 e es before =
    let next : u32 (sec + 1) ≡ fat.rsvd_sec_cnt + (i + 1) =
      omega (arith, v.before, v.sectors, table_bound fat v) in
    from
      (λ old.
        alloc_from-Allocated fat d rounds (i + 1) (u32 (sec + 1)) v h0 h1 (omega arith) next old)
      (free_entry fat (fat.byts_per_sec / 4) d sec 0)
      (free_entry-IsFirst fat d sec (fat.byts_per_sec / 4) 0)
  where
    per : fat.byts_per_sec / 4 ≡ 128
    per = rw v.sector refl

    entry :
        (k : ℕ) → i * 128 ≤ k → k < i * 128 + 128 → table fat d k ≡ read32 d sec ((k - i * 128) * 4)
    entry k lo hi = sector_entries fat d i k lo hi ∙ rw es refl

    known :
        (n : ℕ)
        → n ≤ 128
        → ((k : ℕ) → 0 ≤ k → k < n → read32 d sec (k * 4) ≢ 0)
        → (k : ℕ) → k < i * 128 + n
        → table fat d k ≢ 0
    known n small f k h = elim (Bool-cases (ltb k (i * 128))) [
      | inl old ↦ before k (ltb→lt k (i * 128) old)
      | inr new ↦
          let lo : i * 128 ≤ k = ground arith in
          λ z. f (k - i * 128) (omega arith) (omega arith) (sym (entry k lo (omega arith)) ∙ z)
    ]

    from :
        (((k : ℕ) → k < (i + 1) * 128 → table fat d k ≢ 0)
          → Allocated fat d (alloc_from fat rounds d (u32 (sec + 1)) (i + 1)))
        → (r : Option ℕ) → IsFirst (λ k. read32 d sec (k * 4)) 0 (fat.byts_per_sec / 4) r
        → Allocated fat d (elim r [
          | none ↦ alloc_from fat rounds d (u32 (sec + 1)) (i + 1)
          | some j ↦ (
            u32 (i * (fat.byts_per_sec / 4) + j),
            zero_clus fat (write32 d sec (j * 4) fat32_feoc) (u32 (i * (fat.byts_per_sec / 4) + j)),
          )
        ])
    from again none f =
        again
          (λ k h. known 128 (omega arith) (λ q lo hi. f q lo (omega (arith, per))) k (omega arith))
    from again (some j) (lo, hi, z, f) =
        let small : u32 (i * 128 + j) ≡ i * 128 + j = omega (arith, table_bound fat v, per) in
        let there : table fat d (i * 128 + j) ≡ read32 d sec (j * 4) =
          entry (i * 128 + j) (omega arith) (omega (arith, per))
          ∙ ap (λ x. read32 d sec (x * 4)) (omega arith) in
        rw (per, small, es)
          (take_entry fat d i j v h0 h1 (omega arith) (omega (arith, per))
            (known j (omega (arith, per)) f) (there ∙ z))

-- On a volume whose entries 0 and 1 are not free, as formatting leaves them, alloc_clus takes the
-- first cluster whose entry is 0: it sets that entry to the end mark, leaves every other entry of
-- the table as it is and clears the sectors of the cluster. When no entry is 0 it changes nothing
-- and answers 1.
pub alloc_clus-Allocated :
    (fat : Volume) (d : Disk)
    → IsMounted fat
    → table fat d 0 ≢ 0
    → table fat d 1 ≢ 0
    → Allocated fat d (alloc_clus fat d)
unfolding alloc_clus
alloc_clus-Allocated fat d v h0 h1 =
    alloc_from-Allocated fat d fat.fat_sz 0 fat.rsvd_sec_cnt v h0 h1 (omega arith) (omega arith)
      (λ k h. absurd (omega arith))
