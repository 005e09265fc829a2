-- ===== src/Fat32/Directory/OnDisk.antt =====
-- enext on the entries that a directory holds on the disk.
use k210_os.Prelude.{
  ℕ, zero, suc, ◌+◌, ◌*◌, ◌/◌, ◌%◌, ◌^◌, ◌<◌, ◌≤◌, ◌≡◌, ◌⊎◌, inl, inr, refl, sym, ap, ◌∙◌, true,
  false, some, List, [], ◌∷◌, arith, ◌==◌, eq→==, length, Outcome, ok, panic, fault, hang, ◌>>=◌,
  Yields,
}
use mathlib.Core.Path.{subst}
use native.Mathlib.Nat.{div-add-mod', mod-lt}
use k210_os.Fat32.Sector.{Disk}
use k210_os.Fat32.{Volume, u32, first_sec_of_clus}
use k210_os.Fat32.Table.{IsMounted}
use k210_os.Fat32.Entry.{Dirent}
use k210_os.Fat32.Entry.Chain.{nth, Reaches, Cursor, at_cluster, reloc_clus-at_cluster}
use k210_os.Fat32.Entry.Cluster.{cluster_bytes, rw_clus_read-run, length-run}
use k210_os.Fat32.Entry.Content.{file_bytes, run-file_bytes}
use k210_os.Fat32.Directory.{
  Scanning, Nexted, enext_entry, enext_long, enext_short, read_dentry, enext_loop,
}
use k210_os.Fat32.Directory.RoundTrip.{enext_all}

-- A directory with a chain for all its bytes below an offset.
pub record HasRoom (fat : Volume) (d : Disk) (dp : Dirent) (limit : ℕ) : Type 0 where
  pub cursor : Cursor fat d dp
  pub word : limit < 2 ^ 32
  pub chain :
      (j : ℕ)
      → j * fat.byts_per_clus < limit
      → (2 ≤ nth fat d dp.first_clus j) × (nth fat d dp.first_clus j ≤ fat.data_clus_cnt + 1)

pub times_assoc : (a b : ℕ) → a * (b * 512) ≡ a * b * 512
times_assoc a b = grind arith

pub times_mono : (a b p : ℕ) → a ≤ b → a * p ≤ b * p
times_mono a b p h = grind arith

mono_times : (p a b : ℕ) → a ≤ b → p * a ≤ p * b
mono_times p a b h = grind arith

-- An entry does not cross the end of a cluster.
pub entry_fits :
    (fat : Volume) (off : ℕ)
    → IsMounted fat
    → off % 32 ≡ 0
    → (off % fat.byts_per_clus) % 32 ≡ 0 × (off % fat.byts_per_clus + 32 ≤ fat.byts_per_clus)
entry_fits fat off v a =
    let b : ℕ = fat.byts_per_clus in
    let whole : off / b * b + off % b ≡ off = div-add-mod' off b in
    let sectors : off / b * b ≡ off / b * fat.sec_per_clus * 512 =
      ap (λ n. off / b * n) v.bytes ∙ times_assoc (off / b) fat.sec_per_clus in
    let below : off % b < b = mod-lt off (omega (arith, v.bytes, v.some_sectors)) in
    (omega (arith, whole, sectors), omega (arith, whole, sectors, below, v.bytes))

pub few_clusters :
    (fat : Volume) (off : ℕ) → IsMounted fat → off < 2 ^ 32 → off / fat.byts_per_clus < 2 ^ 31
few_clusters fat off v w =
    let b : ℕ = fat.byts_per_clus in
    let whole : off / b * b ≤ off = omega (arith, div-add-mod' off b) in
    let twice : off / b * 2 ≤ off / b * b =
      mono_times (off / b) 2 b (omega (arith, v.bytes, v.some_sectors)) in
    omega (arith, whole, twice)

pub HasRoom-Reaches :
    (fat : Volume) (d : Disk) (dp : Dirent) (limit off : ℕ)
    → IsMounted fat
    → HasRoom fat d dp limit
    → off < limit
    → Reaches fat d dp.first_clus (off / fat.byts_per_clus)
HasRoom-Reaches fat d dp limit off v h lt j le =
    let whole : off / fat.byts_per_clus * fat.byts_per_clus ≤ off =
      omega (arith, div-add-mod' off fat.byts_per_clus) in
    let before : j * fat.byts_per_clus ≤ off / fat.byts_per_clus * fat.byts_per_clus =
      times_mono j (off / fat.byts_per_clus) fat.byts_per_clus le in
    omega (arith, h.chain j (omega (arith, whole, before)), v.clusters)

read_dentry-file_bytes :
    (fat : Volume) (d : Disk) (dp : Dirent) (limit off : ℕ)
    → IsMounted fat
    → HasRoom fat d dp limit
    → off % 32 ≡ 0
    → off + 32 ≤ limit
    → read_dentry fat dp off d
      ≡ ok (
        some (file_bytes fat d dp.first_clus off 32),
        at_cluster fat d dp (off / fat.byts_per_clus),
      )
unfolding read_dentry
read_dentry-file_bytes fat d dp limit off v h a le =
    let b : ℕ = fat.byts_per_clus in
    let k : ℕ = off / b in
    let first : ℕ = dp.first_clus in
    let r : ℕ = off % b in
    let fits = entry_fits fat off v a in
    let c = h.chain k (omega (arith, div-add-mod' off b)) in
    let bytes : cluster_bytes fat d (nth fat d first k) r 32 ≡ file_bytes fat d first off 32 =
      run-file_bytes fat d first off r 32 k (omega (arith, v.bytes, v.some_sectors)) fits.1
        (λ p. (refl, refl)) in
    let count : length (file_bytes fat d first off 32) ≡ 32 =
      ap length (sym bytes) ∙ length-run d (first_sec_of_clus fat (nth fat d first k)) r 32 in
    let whole : (length (file_bytes fat d first off 32) == 32) ≡ true =
      eq→== (length (file_bytes fat d first off 32)) 32 count in
    rw
      (
        reloc_clus-at_cluster fat d false dp off h.cursor
            (few_clusters fat off v (omega (arith, h.word)))
            (HasRoom-Reaches fat d dp limit off v h (omega arith)),
        rw_clus_read-run (λ a' n. true) fat d (nth fat d first k) 0 r 32 v (λ a' n. refl) c.0 c.1
            fits.1,
        bytes,
        whole,
      )
      refl

abbrev pub put_dp : Nexted → Dirent → Nexted
put_dp r x = record r { dp = x }

abbrev pub scan_dp : Scanning → Dirent → Scanning
scan_dp s x = record s { so_far = put_dp s.so_far x }

abbrev with_dp : Dirent → Scanning ⊎ Nexted → Scanning ⊎ Nexted
with_dp x (inl s) = inl (scan_dp s x)
with_dp x (inr r) = inr (put_dp r x)

-- A round of enext does not look at the directory.
enext_entry-with_dp :
    (name : ℕ) (de : List ℕ) (s : Scanning) (x : Dirent)
    → enext_entry name de (scan_dp s x) ≡ (enext_entry name de s >>= λ r. ok (with_dp x r))
unfolding enext_entry enext_long enext_short
enext_entry-with_dp name de s x = ground arith

-- These entries stand in the directory, from an offset on.
abbrev pub Lie : Volume → Disk → ℕ → ℕ → List (List ℕ) → Type 0
Lie fat d first off [] = Unit
Lie fat d first off (de ∷ des) =
    (file_bytes fat d first off 32 ≡ de) × Lie fat d first (off + 32) des

abbrev result_of : Nexted → Outcome (Scanning ⊎ Nexted) → Nexted
result_of x (ok (inr y)) = y
result_of x _ = x

-- What the loop of enext comes to, but for the cursor of the directory, from what its rounds come
-- to on these entries.
abbrev pub MatchesAll : Outcome (Scanning ⊎ Nexted) → Outcome Nexted → Type 0
MatchesAll m r = (x : Nexted) → m ≡ ok (inr x) → Yields (λ y. y ≡ record x { dp = y.dp }) r

-- The end of a round of enext_all, and of the loop.
abbrev go_all : ℕ → List (List ℕ) → Scanning ⊎ Nexted → Outcome (Scanning ⊎ Nexted)
go_all name des (inl s) = enext_all name des s
go_all name des (inr x) = ok (inr x)

abbrev go_loop : Volume → ℕ → ℕ → ℕ → Disk → Scanning ⊎ Nexted → Outcome Nexted
go_loop fat fuel name off d (inl s) = enext_loop fat fuel name off d s
go_loop fat fuel name off d (inr x) = ok x

round-MatchesAll :
    (fat : Volume) (d : Disk) (name fuel off : ℕ) (des : List (List ℕ)) (dp : Dirent)
    (m : Outcome (Scanning ⊎ Nexted))
    → ((s : Scanning)
        → MatchesAll (enext_all name des s) (enext_loop fat fuel name off d (scan_dp s dp)))
    → MatchesAll
        (m >>= go_all name des)
        (m >>= (λ r. ok (with_dp dp r)) >>= go_loop fat fuel name off d)
round-MatchesAll fat d name fuel off des dp (ok (inl s)) rest x q = rest s x q
round-MatchesAll fat d name fuel off des dp (ok (inr y)) rest x q =
    ap (λ z. put_dp z dp) (ap (result_of x) q)
round-MatchesAll fat d name fuel off des dp panic rest x q = cc
round-MatchesAll fat d name fuel off des dp fault rest x q = cc
round-MatchesAll fat d name fuel off des dp hang rest x q = cc

module _ (fat : Volume) (d : Disk) (name first limit : ℕ) (v : IsMounted fat) where
  pub enext_loop-enext_all :
      (fuel off : ℕ) (des : List (List ℕ)) (s : Scanning) (dp : Dirent)
      → dp.first_clus ≡ first
      → HasRoom fat d dp limit
      → off % 32 ≡ 0
      → off + 32 * length des ≤ limit
      → length des ≤ fuel
      → Lie fat d first off des
      → MatchesAll (enext_all name des s) (enext_loop fat fuel name off d (scan_dp s dp))
  unfolding enext_loop enext_all
  enext_loop-enext_all fuel off [] s dp e h a le few l x q = cc
  enext_loop-enext_all zero off (de ∷ des) s dp e h a le few l x q = absurd (omega arith)
  enext_loop-enext_all (suc fuel) off (de ∷ des) s dp e h a le few (here, l) x q =
      let dp' : Dirent = at_cluster fat d dp (off / fat.byts_per_clus) in
      let room : HasRoom fat d dp' limit = record {
        cursor = record { at = refl; word = few_clusters fat off v (omega (arith, h.word)) };
        word = h.word;
        chain = h.chain;
      } in
      let next : u32 (off + 32) ≡ off + 32 = omega (arith, h.word) in
      let same : file_bytes fat d dp.first_clus off 32 ≡ de =
        ap (λ c. file_bytes fat d c off 32) e ∙ here in
      rw
        (
          read_dentry-file_bytes fat d dp limit off v h a (omega arith),
          same,
          enext_entry-with_dp name de s dp',
        )
        (round-MatchesAll fat d name fuel (u32 (off + 32)) des dp' (enext_entry name de s)
          (λ s2.
            subst
              (λ o.
                MatchesAll (enext_all name des s2) (enext_loop fat fuel name o d (scan_dp s2 dp')))
              (sym next)
              (enext_loop-enext_all fuel (off + 32) des s2 dp' e room (omega arith) (omega arith)
                (omega arith) l))
          x q)
