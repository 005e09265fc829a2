-- ===== src/Fat32/Entry/Cluster.antt =====
-- rw_clus reads a run of bytes of a cluster, sector by sector.
use k210_os.Prelude.{
  ℕ, zero, suc, ◌+◌, ◌-◌, ◌*◌, ◌/◌, ◌%◌, ◌^◌, ◌<◌, ◌≤◌, ◌≡◌, refl, ap, min, Bool, true, false, List,
  [], ◌∷◌, ◌++◌, arith, ltb, ◌==◌, length, ok,
}
use k210_os.Fat32.Sector.{Disk, bsize, read_byte, chunk}
use k210_os.Fat32.{Volume, u32, first_sec_of_clus}
use k210_os.Fat32.Table.{IsMounted}
use k210_os.Fat32.Entry.{read_sectors, rw_clus_read}

-- the `n` bytes from the `i`-th byte after the start of sector `first`
unfoldable pub run : Disk → ℕ → ℕ → ℕ → List ℕ
run d first i zero = []
run d first i (suc n) = read_byte d (first + i / bsize) (i % bsize) ∷ run d first (i + 1) n

pub length-run : (d : Disk) (first i n : ℕ) → length (run d first i n) ≡ n
unfolding run
length-run d first i zero = refl
length-run d first i (suc n) = ap suc (length-run d first (i + 1) n)

pub run-append :
    (d : Disk) (first i m n k : ℕ)
    → k ≡ m + n
    → run d first i m ++ run d first (i + m) n ≡ run d first i k
unfolding run
run-append d first i zero n k e =
    let e' : k ≡ n = omega arith in let i' : i + 0 ≡ i = omega arith in rw (e', i')
run-append d first i (suc m) n zero e = absurd (omega arith)
run-append d first i (suc m) n (suc k) e =
    let i' : i + suc m ≡ i + 1 + m = omega arith in
    rw i' (
      ap (◌∷◌ (read_byte d (first + i / bsize) (i % bsize)))
        (run-append d first (i + 1) m n k (omega arith)))

chunk-run :
    (d : Disk) (first sec i off m : ℕ)
    → off + m ≤ bsize
    → (0 < m → (sec ≡ first + i / bsize) × (off ≡ i % bsize))
    → chunk d sec off m ≡ run d first i m
unfolding chunk run
chunk-run d first sec i off zero h e = refl
chunk-run d first sec i off (suc m) h e =
    let (es, eo) = e (omega arith) in
    rw (
      chunk-run d first sec (i + 1) (off + 1) m (omega arith) (λ p. (omega arith, omega arith)),
      es,
      eo,
    )

read_sectors-run :
    (copyout : ℕ → ℕ → Bool) (fuel : ℕ) (fat : Volume) (d : Disk) (first sec i off address left : ℕ)
    → ((a m : ℕ) → copyout a m ≡ true)
    → left < fuel
    → first + (i + left) / bsize + 1 < 2 ^ 32
    → (0 < left → (sec ≡ first + i / bsize) × (off % bsize ≡ i % bsize))
    → read_sectors fat copyout fuel d sec off address left ≡ ok (run d first i left)
unfolding read_sectors run
read_sectors-run copyout zero fat d first sec i off address left c f w e = absurd (omega arith)
read_sectors-run copyout (suc fuel) fat d first sec i off address zero c f w e = refl
read_sectors-run copyout (suc fuel) fat d first sec i off address (suc l) c f w e =
    let (es, eo) = e (omega arith) in
    let m : ℕ = min (suc l) (bsize - off % bsize) in
    let some_left : (suc l == 0) ≡ false = ground arith in
    rw
      (
        some_left,
        c address m,
        read_sectors-run copyout fuel fat d first (u32 (sec + 1)) (i + m) (off + m) (address + m)
            (suc l - m) c (omega arith) (omega arith) (λ p. (omega arith, omega arith)),
        chunk-run d first sec i (off % bsize) m (omega arith) (λ p. (es, eo)),
      )
      (ap ok (run-append d first i m (suc l - m) (suc l) (omega arith)))

-- the bytes of a cluster
abbrev pub cluster_bytes : Volume → Disk → ℕ → ℕ → ℕ → List ℕ
cluster_bytes fat d c i n = run d (first_sec_of_clus fat c) i n

times_mono : (a b p : ℕ) → a ≤ b → a * p ≤ b * p
times_mono a b p h = grind arith

pub first_sec_of_clus-eq :
    (fat : Volume) (c : ℕ)
    → IsMounted fat
    → 2 ≤ c
    → c ≤ fat.data_clus_cnt + 1
    → (first_sec_of_clus fat c ≡ fat.first_data_sec + (c - 2) * fat.sec_per_clus)
      × (first_sec_of_clus fat c + fat.sec_per_clus + 1 < 2 ^ 32)
unfolding first_sec_of_clus
first_sec_of_clus-eq fat c v lo hi =
    let back : (c + 2 ^ 32 - 2) % 2 ^ 32 ≡ c - 2 = omega (arith, v.clusters) in
    let few : c - 2 + 1 + 1 ≤ fat.fat_sz * 128 = omega (arith, v.covers) in
    let inside : (c - 2 + 1 + 1) * fat.sec_per_clus ≤ fat.fat_sz * 128 * fat.sec_per_clus =
      times_mono (c - 2 + 1 + 1) (fat.fat_sz * 128) fat.sec_per_clus few in
    rw back (
      omega (arith, inside, v.some_sectors, v.sectors),
      omega (arith, inside, v.some_sectors, v.sectors),
    )

-- rw_clus reads the bytes of the cluster that it is asked for.
pub rw_clus_read-run :
    (copyout : ℕ → ℕ → Bool) (fat : Volume) (d : Disk) (c address off n : ℕ)
    → IsMounted fat
    → ((a m : ℕ) → copyout a m ≡ true)
    → 2 ≤ c
    → c ≤ fat.data_clus_cnt + 1
    → off + n ≤ fat.byts_per_clus
    → rw_clus_read fat copyout d c address off n ≡ ok (cluster_bytes fat d c off n)
unfolding rw_clus_read first_sec_of_clus read_sectors
rw_clus_read-run copyout fat d c address off n v ok_all lo hi h =
    let room = (first_sec_of_clus-eq fat c v lo hi).1 in
    let inside : ltb fat.byts_per_clus (u32 (off + n)) ≡ false = ground (arith, v.bytes, room) in
    let first : ℕ = first_sec_of_clus fat c in
    let sectors : (off + n) / bsize ≤ fat.sec_per_clus = omega (arith, v.bytes) in
    let here : off / bsize ≤ (off + n) / bsize = omega arith in
    rw (inside, v.sector)
      (read_sectors-run copyout (n + 1) fat d first (u32 (first + off / bsize)) off (off % bsize)
        address n ok_all (omega arith) (omega (arith, room))
        (λ p. (omega (arith, room), omega arith)))
