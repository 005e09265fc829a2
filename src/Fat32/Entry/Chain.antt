-- ===== src/Fat32/Entry/Chain.antt =====
-- reloc_clus moves the cursor of a file to the cluster of an offset.
use k210_os.Prelude.{
  ℕ, zero, suc, ◌+◌, ◌-◌, ◌/◌, ◌%◌, ◌^◌, ◌<◌, ◌≤◌, ◌≡◌, inl, inr, refl, ap, ◌∙◌, Bool, false, some,
  arith, ltb, leb, Bool-cases, ok,
}
use k210_os.Fat32.Sector.{Disk}
use k210_os.Fat32.{Volume, u32, fat32_eoc, read_fat}
use k210_os.Fat32.Entry.{Dirent, there, advance, rewind, reloc_clus}

module _ (fat : Volume) (d : Disk) where
  -- the cluster that `k` steps along the table lead to
  unfoldable pub nth : ℕ → ℕ → ℕ
  nth first zero = first
  nth first (suc k) = read_fat fat d (nth first k)

  -- The clusters of the file up to the `k`-th one are below the end mark.
  abbrev pub Reaches : ℕ → ℕ → Type 0
  Reaches first k = (j : ℕ) → j ≤ k → nth first j < fat32_eoc

  -- The cursor stands at the cluster that it counts.
  pub record Cursor (e : Dirent) : Type 0 where
    pub at : e.cur_clus ≡ nth e.first_clus e.clus_cnt
    pub word : e.clus_cnt < 2 ^ 31

abbrev pub at_cluster : Volume → Disk → Dirent → ℕ → Dirent
at_cluster fat d e k = record e { cur_clus = nth fat d e.first_clus k; clus_cnt = k }

advance-step :
    (fat : Volume) (d : Disk) (rounds : ℕ) (alloc : Bool) (e : Dirent)
    → read_fat fat d e.cur_clus < fat32_eoc
    → e.clus_cnt + 1 < 2 ^ 32
    → advance fat (suc rounds) alloc e d
      ≡ advance fat rounds alloc
          (record e { cur_clus = read_fat fat d e.cur_clus; clus_cnt = suc e.clus_cnt })
          d
unfolding advance
advance-step fat d rounds alloc e h w =
    let step : u32 (e.clus_cnt + 1) ≡ suc e.clus_cnt = omega arith in
    let inside : leb fat32_eoc (read_fat fat d e.cur_clus) ≡ false = ground arith in
    rw (inside, advance) (rw step)

advance-there :
    (fat : Volume) (d : Disk) (rounds : ℕ) (alloc : Bool) (e : Dirent) (k : ℕ)
    → Cursor fat d e
    → k ≡ e.clus_cnt + rounds
    → k < 2 ^ 31
    → Reaches fat d e.first_clus k
    → advance fat rounds alloc e d ≡ there (at_cluster fat d e k) d
unfolding advance nth
advance-there fat d zero alloc e k c h w r =
    let same : k ≡ e.clus_cnt = omega arith in
    rw same (ap (λ x. there (record e { cur_clus = x }) d) c.at)
advance-there fat d (suc rounds) alloc e k c h w r =
    let next : read_fat fat d e.cur_clus ≡ nth fat d e.first_clus (suc e.clus_cnt) =
      ap (read_fat fat d) c.at in
    advance-step fat d rounds alloc e (rw next (r (suc e.clus_cnt) (omega arith))) (omega arith)
    ∙ (ap (λ x. advance fat rounds alloc (record e { cur_clus = x; clus_cnt = suc e.clus_cnt }) d)
          next
        ∙ advance-there fat d rounds alloc (at_cluster fat d e (suc e.clus_cnt)) k
            (record { at = refl; word = omega arith }) (omega arith) w r)

rewind-ok :
    (fat : Volume) (d : Disk) (rounds : ℕ) (e : Dirent) (k : ℕ)
    → Cursor fat d e
    → k ≡ e.clus_cnt + rounds
    → k < 2 ^ 31
    → Reaches fat d e.first_clus k
    → rewind fat rounds e d ≡ ok (at_cluster fat d e k)
unfolding rewind nth
rewind-ok fat d zero e k c h w r =
    let same : k ≡ e.clus_cnt = omega arith in
    rw same (ap (λ x. ok (record e { cur_clus = x })) c.at)
rewind-ok fat d (suc rounds) e k c h w r =
    let next : read_fat fat d e.cur_clus ≡ nth fat d e.first_clus (suc e.clus_cnt) =
      ap (read_fat fat d) c.at in
    let step : u32 (e.clus_cnt + 1) ≡ suc e.clus_cnt = omega arith in
    let inside : leb fat32_eoc (read_fat fat d e.cur_clus) ≡ false =
      ground (arith, next, r (suc e.clus_cnt) (omega arith)) in
    rw (inside, step)
      (ap (λ x. rewind fat rounds (record e { cur_clus = x; clus_cnt = suc e.clus_cnt }) d) next
        ∙ rewind-ok fat d rounds (at_cluster fat d e (suc e.clus_cnt)) k
            (record { at = refl; word = omega arith }) (omega arith) w r)

advance-zero :
    (fat : Volume) (d : Disk) (alloc : Bool) (e : Dirent) → advance fat 0 alloc e d ≡ there e d
unfolding advance
advance-zero fat d alloc e = refl

first_cluster : (fat : Volume) (d : Disk) (first : ℕ) → first ≡ nth fat d first 0
unfolding nth
first_cluster fat d first = refl

-- reloc_clus to an offset within the chain, with or without `alloc`, moves the cursor to the
-- cluster of that offset, forwards or from the start, leaves the disk as it is, and answers the
-- offset in the cluster.
pub reloc_clus-at_cluster :
    (fat : Volume) (d : Disk) (alloc : Bool) (e : Dirent) (off : ℕ)
    → Cursor fat d e
    → off / fat.byts_per_clus < 2 ^ 31
    → Reaches fat d e.first_clus (off / fat.byts_per_clus)
    → reloc_clus fat alloc e off d
      ≡ ok (some (off % fat.byts_per_clus), at_cluster fat d e (off / fat.byts_per_clus), d)
unfolding reloc_clus
reloc_clus-at_cluster fat d alloc e off c w r =
    let k : ℕ = off / fat.byts_per_clus in
    elim (Bool-cases (ltb k e.clus_cnt)) [
      | inl back ↦
          let none_left : k - e.clus_cnt ≡ 0 = ground arith in
          let stays : advance fat (k - e.clus_cnt) alloc e d ≡ there e d =
            ap (λ n. advance fat n alloc e d) none_left ∙ advance-zero fat d alloc e in
          rw (stays, reloc_clus)
            (rw (
              back,
              rewind-ok fat d k (record e { cur_clus = e.first_clus; clus_cnt = 0 }) k
                  (record { at = first_cluster fat d e.first_clus; word = omega arith })
                  (omega arith) w r,
            ))
      | inr on ↦
          let there_yet : ltb k k ≡ false = ground arith in
          rw (advance-there fat d (k - e.clus_cnt) alloc e k c (ground arith) w r, reloc_clus)
            (rw there_yet)
    ]
