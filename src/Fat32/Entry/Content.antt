-- ===== src/Fat32/Entry/Content.antt =====
-- eread gives the bytes of a file, cluster after cluster.
use k210_os.Prelude.{
  ℕ, zero, suc, ◌+◌, ◌-◌, ◌*◌, ◌/◌, ◌%◌, ◌^◌, ◌<◌, ◌≤◌, ◌≡◌, ◌⊎◌, inl, inr, refl, sym, ap, ◌∙◌, min,
  Bool, true, false, List, [], ◌∷◌, ◌++◌, arith, ltb, ◌==◌, if◌then◌else◌, lt→ltb, eq→==,
  Bool-cases, length, ok, Yields, Yields->>=,
}
use native.Mathlib.Nat.{div-add-mod', div-eq_of_lt-le, mod-lt}
use k210_os.Fat32.Sector.{Disk, bsize, read_byte}
use k210_os.Fat32.{Volume, u32, fat32_eoc, first_sec_of_clus}
use k210_os.Fat32.Table.{IsMounted}
use k210_os.Fat32.Entry.{Dirent, is_directory, eread, eread_loop}
use k210_os.Fat32.Entry.Chain.{nth, Reaches, Cursor, at_cluster, reloc_clus-at_cluster}
use k210_os.Fat32.Entry.Cluster.{run, cluster_bytes, rw_clus_read-run, length-run}

-- Offsets in one block of `b` bytes have one quotient, and remainders as far apart as they are.
pub same_block :
    (b off k : ℕ) → off % b + k < b → ((off + k) / b ≡ off / b) × ((off + k) % b ≡ off % b + k)
same_block b off k h =
    let whole : off / b * b + off % b ≡ off = div-add-mod' off b in
    let next : (off / b + 1) * b ≡ off / b * b + b = grind arith in
    let same : (off + k) / b ≡ off / b =
      div-eq_of_lt-le b (omega (arith, whole)) (omega (arith, whole, next)) in
    let split : (off + k) / b * b + (off + k) % b ≡ off + k = div-add-mod' (off + k) b in
    let split' : off / b * b + (off + k) % b ≡ off + k =
      ap (λ (q : ℕ). q * b + (off + k) % b) (sym same) ∙ split in
    (same, omega (arith, whole, split'))

-- A quotient by at least two is below half of the bound.
quotient_bound : (b off : ℕ) → 2 ≤ b → off < 2 ^ 32 → off / b < 2 ^ 31
quotient_bound b off h w =
    let whole : off / b * b ≤ off = omega (arith, div-add-mod' off b) in
    let twice : off / b * 2 ≤ off / b * b = grind arith in omega (arith, whole, twice)

module _ (fat : Volume) (d : Disk) (first : ℕ) where
  -- the byte of the file at an offset: in the cluster that the chain leads to, at its place there
  unfoldable pub file_byte : ℕ → ℕ
  file_byte off =
      let c : ℕ = nth fat d first (off / fat.byts_per_clus) in
      let i : ℕ = off % fat.byts_per_clus in
      read_byte d (first_sec_of_clus fat c + i / bsize) (i % bsize)

  -- the `n` bytes of the file from an offset on
  unfoldable pub file_bytes : ℕ → ℕ → List ℕ
  file_bytes off zero = []
  file_bytes off (suc n) = file_byte off ∷ file_bytes (off + 1) n

  pub file_bytes-append :
      (off m n k : ℕ) → k ≡ m + n → file_bytes off m ++ file_bytes (off + m) n ≡ file_bytes off k
  unfolding file_bytes
  file_bytes-append off zero n k e =
      let e' : k ≡ n = omega arith in let o : off + 0 ≡ off = omega arith in rw (e', o)
  file_bytes-append off (suc m) n zero e = absurd (omega arith)
  file_bytes-append off (suc m) n (suc k) e =
      let o : off + suc m ≡ off + 1 + m = omega arith in
      rw o (ap (◌∷◌ (file_byte off)) (file_bytes-append (off + 1) m n k (omega arith)))

  -- Within one cluster they are bytes of that cluster.
  pub run-file_bytes :
      (off i m c : ℕ)
      → 0 < fat.byts_per_clus
      → i + m ≤ fat.byts_per_clus
      → (0 < m → (i ≡ off % fat.byts_per_clus) × (c ≡ off / fat.byts_per_clus))
      → cluster_bytes fat d (nth fat d first c) i m ≡ file_bytes off m
  unfolding run file_bytes file_byte
  run-file_bytes off i zero c pos h e = refl
  run-file_bytes off i (suc m) c pos h e =
      let (ei, ec) = e (omega arith) in
      let rest = run-file_bytes (off + 1) (i + 1) m c pos (omega arith) (λ p.
        let block = same_block fat.byts_per_clus off 1 (omega arith) in
        (omega (arith, block.1), ec ∙ sym block.0)) in
      rw (rest, ei, ec)

-- A file of the volume: its cursor is right, and the chain has a cluster of the volume for each of
-- its bytes.
pub record IsFile (fat : Volume) (d : Disk) (e : Dirent) : Type 0 where
  pub cursor : Cursor fat d e
  pub low : e.cur_clus < fat32_eoc
  pub chain :
      (j : ℕ)
      → j * fat.byts_per_clus < e.file_size
      → (2 ≤ nth fat d e.first_clus j) × (nth fat d e.first_clus j ≤ fat.data_clus_cnt + 1)
  pub word : e.file_size < 2 ^ 32

-- What a read has brought: the bytes of the file, with nothing but the cursor moved.
pub record HasRead (fat : Volume) (d : Disk) (e : Dirent) (off n : ℕ) (r : List ℕ × Dirent × Disk)
    : Type 0 where
  pub bytes : r.0 ≡ file_bytes fat d e.first_clus off n
  pub same_file : r.1 ≡ record e { cur_clus = r.1.cur_clus; clus_cnt = r.1.clus_cnt }
  pub file : IsFile fat d r.1
  pub same_disk : r.2 ≡ d

module _ (copyout : ℕ → ℕ → Bool) (fat : Volume) (d : Disk) (v : IsMounted fat)
    (c : (a m : ℕ) → copyout a m ≡ true) where
  some_bytes : 2 ≤ fat.byts_per_clus
  some_bytes = omega (arith, v.bytes, v.some_sectors)

  -- The cluster of an offset in the file, and those before it, are clusters of the volume.
  cluster_of :
      (e : Dirent) (off : ℕ)
      → IsFile fat d e
      → off < e.file_size
      → Reaches fat d e.first_clus (off / fat.byts_per_clus)
  cluster_of e off f h j le =
      let whole : off / fat.byts_per_clus * fat.byts_per_clus ≤ off =
        omega (arith, div-add-mod' off fat.byts_per_clus) in
      let before : j * fat.byts_per_clus ≤ off / fat.byts_per_clus * fat.byts_per_clus =
        grind arith in
      omega (arith, v.clusters, f.chain j (omega (arith, whole, before)))

  eread_loop-HasRead :
      (fuel : ℕ) (e : Dirent) (address off left : ℕ)
      → IsFile fat d e
      → left < fuel
      → off + left ≤ e.file_size
      → Yields (HasRead fat d e off left) (eread_loop fat copyout fuel e address off left d)
  unfolding eread_loop file_bytes
  eread_loop-HasRead zero e address off left f enough h = absurd (omega arith)
  eread_loop-HasRead (suc fuel) e address off zero f enough h =
      let low : ltb e.cur_clus fat32_eoc ≡ true = ground (arith, f.low) in
      rw low (record { bytes = refl; same_file = refl; file = f; same_disk = refl })
  eread_loop-HasRead (suc fuel) e address off (suc l) f enough h =
      let b : ℕ = fat.byts_per_clus in
      let low : ltb e.cur_clus fat32_eoc ≡ true = ground (arith, f.low) in
      let some_left : ltb 0 (suc l) ≡ true = ground arith in
      let pos : 0 < b = omega (arith, some_bytes) in
      let m : ℕ = min (suc l) (b - off % b) in
      let reach = cluster_of e off f (omega arith) in
      let k : off / b < 2 ^ 31 = quotient_bound b off some_bytes (omega (arith, f.word)) in
      let whole : off / b * b ≤ off = omega (arith, div-add-mod' off b) in
      let (lo, hi) = f.chain (off / b) (omega arith) in
      let here : Dirent = at_cluster fat d e (off / b) in
      let inside : off % b + m ≤ b = omega (arith, mod-lt off pos) in
      let got =
        run-file_bytes fat d e.first_clus off (off % b) m (off / b) (omega arith) inside
          (λ p. (refl, refl)) in
      let all : length (file_bytes fat d e.first_clus off m) ≡ m =
        ap length (sym got) ∙ length-run d (first_sec_of_clus fat here.cur_clus) (off % b) m in
      let whole_chunk : (length (file_bytes fat d e.first_clus off m) == m) ≡ true =
        eq→== (length (file_bytes fat d e.first_clus off m)) m all in
      rw
        (
          low,
          reloc_clus-at_cluster fat d false e off f.cursor k reach,
          rw_clus_read-run copyout fat d here.cur_clus address (off % b) m v c lo hi inside,
          got,
          whole_chunk,
          some_left,
          eread_loop,
        )
        (Yields->>= (HasRead fat d here (off + m) (suc l - m)) (HasRead fat d e off (suc l))
          (eread_loop fat copyout fuel here (address + m) (off + m) (suc l - m) d)
          (λ r. ok (file_bytes fat d e.first_clus off m ++ r.0, r.1, r.2))
          (eread_loop-HasRead fuel here (address + m) (off + m) (suc l - m)
            (record {
              cursor = record { at = refl; word = k };
              low = omega (arith, v.clusters);
              chain = f.chain;
              word = f.word;
            })
            (omega arith) (omega arith))
          (λ r h'. record {
            bytes =
                ap (◌++◌ (file_bytes fat d e.first_clus off m)) h'.bytes
                ∙ file_bytes-append fat d e.first_clus off m (suc l - m) (suc l) (omega arith);
            same_file = h'.same_file;
            file = h'.file;
            same_disk = h'.same_disk;
          }))

-- A read from an offset in a file that is no directory gives the bytes of the file from there on,
-- as many as were asked for or as the file still has, whatever cluster the cursor stood at; it
-- moves nothing but the cursor, which is right again, and the disk stays as it is. The copy to the
-- caller has to succeed, and `off + n` to fit 32 bits.
pub eread-HasRead :
    (copyout : ℕ → ℕ → Bool) (fat : Volume) (d : Disk) (e : Dirent) (address off n : ℕ)
    → IsMounted fat
    → ((a m : ℕ) → copyout a m ≡ true)
    → IsFile fat d e
    → is_directory e ≡ false
    → off ≤ e.file_size
    → off + n < 2 ^ 32
    → Yields (HasRead fat d e off (min n (e.file_size - off))) (eread fat copyout e address off n d)
unfolding eread
eread-HasRead copyout fat d e address off n v c f plain h w =
    let inside : ltb e.file_size off ≡ false = ground arith in
    let no_wrap : ltb (u32 (off + n)) off ≡ false = ground arith in
    let some_left : ℕ = min n (e.file_size - off) in
    let asked : (if ltb e.file_size (off + n) then e.file_size - off else n) ≡ some_left =
      ground arith in
    rw (inside, no_wrap, plain, asked)
      (eread_loop-HasRead copyout fat d v c (some_left + 1) e address off some_left f (omega arith)
        (omega arith))

-- eread gives nothing and leaves all as it is for a directory, for an offset past the end of the
-- file, and for a count that overflows.
pub eread-refused :
    (copyout : ℕ → ℕ → Bool) (fat : Volume) (d : Disk) (e : Dirent) (address off n : ℕ)
    → (is_directory e ≡ true) ⊎ ((e.file_size < off) ⊎ ((off + n) % 2 ^ 32 < off))
    → eread fat copyout e address off n d ≡ ok ([], e, d)
unfolding eread
eread-refused copyout fat d e address off n h = elim h [
  | inl dir ↦ elim (Bool-cases (ltb e.file_size off)) [
    | inl x ↦ rw x refl
    | inr x ↦ elim (Bool-cases (ltb (u32 (off + n)) off)) [
      | inl y ↦ rw (x, y) refl
      | inr y ↦ rw (x, y, dir) refl
    ]
  ]
  | inr (inl past) ↦ rw (lt→ltb e.file_size off past) refl
  | inr (inr over) ↦ elim (Bool-cases (ltb e.file_size off)) [
    | inl x ↦ rw x refl
    | inr x ↦ rw (x, lt→ltb (u32 (off + n)) off over) refl
  ]
]
