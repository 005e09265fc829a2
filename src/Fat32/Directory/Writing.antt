-- ===== src/Fat32/Directory/Writing.antt =====
-- What emake writes stands in the directory.
use k210_os.Prelude.{
  ℕ, zero, suc, ◌+◌, ◌*◌, ◌/◌, ◌%◌, ◌<◌, ◌≤◌, ◌≡◌, ◌≢◌, ◌⊎◌, inl, inr, refl, sym, ap, ◌∙◌, true,
  List, [], ◌∷◌, arith, ◌==◌, ==→eq, Bool-cases, length, get_or, ok, Yields, Yields-map,
}
use mathlib.Core.Path.{subst}
use native.Mathlib.Nat.{div-add-mod'}
use k210_os.Fat32.Sector.{Disk, bsize, read_byte, write_chunk}
use k210_os.Fat32.{Volume, u32, read_fat, first_sec_of_clus}
use k210_os.Fat32.Table.{IsMounted}
use k210_os.Fat32.Entry.{Dirent}
use k210_os.Fat32.Entry.Chain.{nth, at_cluster, reloc_clus-at_cluster}
use k210_os.Fat32.Entry.Cluster.{first_sec_of_clus-eq}
use k210_os.Fat32.Entry.Content.{file_byte, file_bytes, same_block}
use k210_os.Fat32.Directory.Entries.{write_here, write_dentry, write_dentries}
use k210_os.Fat32.Directory.OnDisk.{
  HasRoom, Lie, few_clusters, HasRoom-Reaches, entry_fits, times_mono,
}
use k210_os.Fat32.Directory.Sectors.{
  rw_clus_write-write_chunk, sector_of, place_of, IsSimple, same_sector, write_chunk-elsewhere,
  write_chunk-here, read_fat-write_chunk,
}

-- What the write of an entry leaves of the directory.
module _ (fat : Volume) (v : IsMounted fat) (d : Disk) (dp : Dirent) (limit off : ℕ) (de : List ℕ)
    (h : HasRoom fat d dp limit) (simple : IsSimple fat d dp.first_clus limit) (a : off % 32 ≡ 0)
    (le : off + 32 ≤ limit) (len : length de ≡ 32) where
  abbrev pub after_write : Disk
  after_write = write_chunk d (sector_of fat d dp.first_clus off) (place_of fat off) de

  in_data : (x : ℕ) → x < limit → fat.first_data_sec ≤ sector_of fat d dp.first_clus x
  in_data x lt =
      let c = h.chain (x / fat.byts_per_clus) (omega (arith, div-add-mod' x fat.byts_per_clus)) in
      let eq =
        (first_sec_of_clus-eq fat (nth fat d dp.first_clus (x / fat.byts_per_clus)) v c.0 c.1).0 in
      omega (arith, eq)

  nth-after :
      (j : ℕ)
      → j * fat.byts_per_clus < limit
      → nth fat after_write dp.first_clus j ≡ nth fat d dp.first_clus j
  unfolding nth
  nth-after zero lt = refl
  nth-after (suc j) lt =
      let less : j * fat.byts_per_clus < limit =
        omega (arith, times_mono j (suc j) fat.byts_per_clus (omega arith)) in
      ap (read_fat fat after_write) (nth-after j less)
      ∙ read_fat-write_chunk fat d (sector_of fat d dp.first_clus off) (place_of fat off)
          (nth fat d dp.first_clus j) de v (in_data off (omega arith)) (h.chain j less).1

  byte_in :
      (x : ℕ)
      → x < limit
      → file_byte fat after_write dp.first_clus x
        ≡ read_byte after_write (sector_of fat d dp.first_clus x) (place_of fat x)
  unfolding file_byte
  byte_in x lt =
      ap
        (λ c.
          read_byte after_write (first_sec_of_clus fat c + x % fat.byts_per_clus / bsize)
            (place_of fat x))
        (nth-after (x / fat.byts_per_clus) (omega (arith, div-add-mod' x fat.byts_per_clus)))

  apart :
      (x : ℕ)
      → (x < off) ⊎ (off + 32 ≤ x)
      → (x / fat.byts_per_clus ≡ off / fat.byts_per_clus)
        × (x % fat.byts_per_clus / bsize ≡ off % fat.byts_per_clus / bsize)
      → (sector_of fat d dp.first_clus x ≢ sector_of fat d dp.first_clus off)
        ⊎ ((place_of fat x < place_of fat off) ⊎ (place_of fat off + length de ≤ place_of fat x))
  apart x outside e =
      let b : ℕ = fat.byts_per_clus in
      let fits = entry_fits fat off v a in
      let wx : x / b * b + x % b ≡ x = div-add-mod' x b in
      let wo : off / b * b + off % b ≡ off = div-add-mod' off b in
      let same : x / b * b ≡ off / b * b = ap (λ q. q * b) e.0 in
      elim outside [
        | inl before ↦ inr (inl (omega (arith, wx, wo, same, e, fits.0)))
        | inr behind ↦ inr (inr (omega (arith, wx, wo, same, e, fits.0, len)))
      ]

  byte_kept :
      (x : ℕ)
      → x < limit
      → (x < off) ⊎ (off + 32 ≤ x)
      → file_byte fat after_write dp.first_clus x ≡ file_byte fat d dp.first_clus x
  unfolding file_byte
  byte_kept x lt outside =
      byte_in x lt
      ∙ ap (λ y. y % 256)
          (elim (Bool-cases
            (sector_of fat d dp.first_clus x == sector_of fat d dp.first_clus off)) [
              | inr other ↦
                  write_chunk-elsewhere de d (sector_of fat d dp.first_clus off) (place_of fat off)
                    (sector_of fat d dp.first_clus x) (place_of fat x) (inl (ground arith))
              | inl same ↦
                  let e = same_sector fat d dp limit x off v h simple lt (omega arith) (
                    ==→eq (sector_of fat d dp.first_clus x) (sector_of fat d dp.first_clus off)
                      same) in
                  write_chunk-elsewhere de d (sector_of fat d dp.first_clus off) (place_of fat off)
                    (sector_of fat d dp.first_clus x) (place_of fat x) (apart x outside e)
            ])

  byte_written :
      (i : ℕ)
      → i < 32
      → file_byte fat after_write dp.first_clus (off + i) ≡ get_or de i 0 % 256 % 256
  byte_written i lt =
      let fits = entry_fits fat off v a in
      let block = same_block fat.byts_per_clus off i (omega (arith, fits.1)) in
      let inner = same_block bsize (off % fat.byts_per_clus) i (omega (arith, fits.0)) in
      byte_in (off + i) (omega arith)
      ∙ ap (λ y. y % 256)
          (write_chunk-here de d (sector_of fat d dp.first_clus off) (place_of fat off)
            (sector_of fat d dp.first_clus (off + i)) (place_of fat (off + i)) i
            (ap
                (λ k.
                  first_sec_of_clus fat (nth fat d dp.first_clus k)
                  + (off + i) % fat.byts_per_clus / bsize)
                block.0
              ∙ ap
                  (λ q.
                    first_sec_of_clus fat (nth fat d dp.first_clus (off / fat.byts_per_clus)) + q)
                  (ap (λ q. q / bsize) block.1 ∙ inner.0))
            (ap (λ q. q % bsize) block.1 ∙ inner.1) (omega arith))

  HasRoom-after_write :
      HasRoom fat after_write (at_cluster fat d dp (off / fat.byts_per_clus)) limit
  HasRoom-after_write = record {
    cursor = record {
      at =
          sym (
            nth-after (off / fat.byts_per_clus)
              (omega (arith, div-add-mod' off fat.byts_per_clus)));
      word = few_clusters fat off v (omega (arith, h.word));
    };
    word = h.word;
    chain = λ j lt.
        subst (λ c. (2 ≤ c) × (c ≤ fat.data_clus_cnt + 1)) (sym (nth-after j lt)) (h.chain j lt);
  }

  IsSimple-after_write : IsSimple fat after_write dp.first_clus limit
  IsSimple-after_write i j li lj e = simple i j li lj (sym (nth-after i li) ∙ (e ∙ nth-after j lj))

  write_dentry-after_write :
      write_dentry fat dp off de d ≡ ok (at_cluster fat d dp (off / fat.byts_per_clus), after_write)
  unfolding write_dentry write_here
  write_dentry-after_write =
      let k : ℕ = off / fat.byts_per_clus in
      let fits = entry_fits fat off v a in
      let c = h.chain k (omega (arith, div-add-mod' off fat.byts_per_clus)) in
      rw
        (
          reloc_clus-at_cluster fat d true dp off h.cursor
              (few_clusters fat off v (omega (arith, h.word)))
              (HasRoom-Reaches fat d dp limit off v h (omega arith)),
          len,
          rw_clus_write-write_chunk fat d (nth fat d dp.first_clus k) (off % fat.byts_per_clus) de v
              c.0 c.1 fits.0 fits.1 len,
        )
        refl

abbrev pub AllBytes : List ℕ → Type 0
AllBytes [] = Unit
AllBytes (x ∷ xs) = (x < 256) × AllBytes xs

AllBytes-get_or : (xs : List ℕ) (i : ℕ) → AllBytes xs → get_or xs i 0 < 256
AllBytes-get_or [] i h = omega arith
AllBytes-get_or (x ∷ xs) zero h = h.0
AllBytes-get_or (x ∷ xs) (suc i) h = AllBytes-get_or xs i h.1

-- Every one of these is an entry of 32 bytes.
abbrev pub AreDentries : List (List ℕ) → Type 0
AreDentries [] = Unit
AreDentries (de ∷ des) = ((length de ≡ 32) × AllBytes de) × AreDentries des

file_bytes-eq :
    (fat : Volume) (d : Disk) (first off n : ℕ) (xs : List ℕ)
    → length xs ≡ n
    → ((i : ℕ) → i < n → file_byte fat d first (off + i) ≡ get_or xs i 0)
    → file_bytes fat d first off n ≡ xs
unfolding file_bytes
file_bytes-eq fat d first off zero [] len e = refl
file_bytes-eq fat d first off zero (x ∷ xs) len e = absurd (omega arith)
file_bytes-eq fat d first off (suc n) [] len e = absurd (omega arith)
file_bytes-eq fat d first off (suc n) (x ∷ xs) len e =
    let here : file_byte fat d first off ≡ x =
      ap (file_byte fat d first) (omega arith) ∙ e 0 (omega arith) in
    rw
      (
        here,
        file_bytes-eq fat d first (off + 1) n xs (omega arith)
            (λ i lt. ap (file_byte fat d first) (omega arith) ∙ e (suc i) (omega arith)),
      )
      refl

file_bytes-kept :
    (fat : Volume) (d d' : Disk) (first off n : ℕ)
    → ((x : ℕ) → x < off + n → file_byte fat d' first x ≡ file_byte fat d first x)
    → file_bytes fat d' first off n ≡ file_bytes fat d first off n
unfolding file_bytes
file_bytes-kept fat d d' first off zero e = refl
file_bytes-kept fat d d' first off (suc n) e =
    rw (e off (omega arith), file_bytes-kept fat d d' first (off + 1) n (λ x lt. e x (omega arith)))
      refl

-- What the writes of entries leave of the directory: they stand from the offset on, and what is
-- before it has not changed.
pub record HasWritten (fat : Volume) (d : Disk) (dp : Dirent) (limit off : ℕ) (des : List (List ℕ))
    (r : Dirent × Disk) : Type 0 where
  pub same_first : (r.0).first_clus ≡ dp.first_clus
  pub same_kind : (r.0).attribute ≡ dp.attribute
  pub room : HasRoom fat r.1 r.0 limit
  pub lie : Lie fat r.1 dp.first_clus off des
  pub before :
      (x : ℕ) → x < off → file_byte fat r.1 dp.first_clus x ≡ file_byte fat d dp.first_clus x

pub write_dentries-HasWritten :
    (fat : Volume) (d : Disk) (dp : Dirent) (limit off : ℕ) (des : List (List ℕ))
    → IsMounted fat
    → HasRoom fat d dp limit
    → IsSimple fat d dp.first_clus limit
    → off % 32 ≡ 0
    → off + 32 * length des ≤ limit
    → AreDentries des
    → Yields (HasWritten fat d dp limit off des) (write_dentries fat dp off des d)
unfolding write_dentries
write_dentries-HasWritten fat d dp limit off [] v h simple a le small = record {
  same_first = refl;
  same_kind = refl;
  room = h;
  lie = tt;
  before = λ x lt. refl;
}
write_dentries-HasWritten fat d dp limit off (de ∷ des) v h simple a le ((len, bytes), small) =
    let one : off + 32 ≤ limit = omega arith in
    let d1 : Disk = write_chunk d (sector_of fat d dp.first_clus off) (place_of fat off) de in
    let dp1 : Dirent = at_cluster fat d dp (off / fat.byts_per_clus) in
    let next : u32 (off + 32) ≡ off + 32 = omega (arith, h.word) in
    let written : file_bytes fat d1 dp.first_clus off 32 ≡ de =
      file_bytes-eq fat d1 dp.first_clus off 32 de len (λ i lt.
        byte_written fat v d dp limit off de h simple a one len i lt
        ∙ omega (arith, AllBytes-get_or de i bytes)) in
    rw (write_dentry-after_write fat v d dp limit off de h simple a one len, next)
      (Yields-map (HasWritten fat d1 dp1 limit (off + 32) des)
        (HasWritten fat d dp limit off (de ∷ des)) (write_dentries fat dp1 (off + 32) des d1)
        (λ r w. record {
          same_first = w.same_first;
          same_kind = w.same_kind;
          room = w.room;
          lie = (file_bytes-kept fat d1 r.1 dp.first_clus off 32 w.before ∙ written, w.lie);
          before = λ x lt.
              w.before x (omega arith)
              ∙ byte_kept fat v d dp limit off de h simple a one len x (omega arith) (inl lt);
        })
        (write_dentries-HasWritten fat d1 dp1 limit (off + 32) des v
          (HasRoom-after_write fat v d dp limit off de h simple a one len)
          (IsSimple-after_write fat v d dp limit off de h simple a one len) (omega arith)
          (omega arith) small))
