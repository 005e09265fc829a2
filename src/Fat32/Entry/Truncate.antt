-- ===== src/Fat32/Entry/Truncate.antt =====
-- etrunc gives back the clusters of a file.
use k210_os.Prelude.{
  ℕ, zero, suc, ◌+◌, ◌<◌, ◌≤◌, ◌≡◌, ◌⊎◌, inl, inr, refl, sym, ◌∙◌, Bool, true, false, ◌&&◌, ◌||◌,
  List, [], ◌∷◌, arith, ltb, leb, ◌==◌, if◌then◌else◌, ==→eq, Bool-cases, length, ok, Yields,
  Yields->>=, Yields-map,
}
use k210_os.Fat32.Sector.{Disk}
use k210_os.Fat32.{Volume, fat32_eoc, read_fat, free_clus}
use k210_os.Fat32.Table.{IsMounted, read_fat-write_fat}
use k210_os.Fat32.Entry.{Dirent, free_chain, etrunc}

unfoldable pub mem : ℕ → List ℕ → Bool
mem k [] = false
mem k (c ∷ cs) = c == k || mem k cs

-- The clusters `cs` are the chain from `c` on: each once, each in the volume, up to a number that
-- is no cluster.
pub data Chain (fat : Volume) (d : Disk) : ℕ → List ℕ → Type 0 where
  end : {c : ℕ} → (c < 2) ⊎ (fat32_eoc ≤ c) → Chain fat d c []
  link :
      {c : ℕ} {cs : List ℕ}
      → 2 ≤ c
      → c ≤ fat.data_clus_cnt + 1
      → mem c cs ≡ false
      → Chain fat d (read_fat fat d c) cs
      → Chain fat d c (c ∷ cs)

-- how many numbers below `n` are in the list
unfoldable spread : ℕ → List ℕ → ℕ
spread zero cs = 0
spread (suc n) cs = (if mem n cs then 1 else 0) + spread n cs

spread-le : (n : ℕ) (cs : List ℕ) → spread n cs ≤ n
unfolding spread
spread-le zero cs = omega arith
spread-le (suc n) cs = ground (arith, spread-le n cs)

spread-cons :
    (n c : ℕ) (cs : List ℕ)
    → mem c cs ≡ false
    → spread n (c ∷ cs) ≡ (if ltb c n then 1 else 0) + spread n cs
unfolding spread mem
spread-cons zero c cs h = ground arith
spread-cons (suc n) c cs h = elim (Bool-cases (c == n)) [
  | inl e ↦
      let out : mem n cs ≡ false = rw (sym (==→eq c n e)) h in
      ground (arith, spread-cons n c cs h, out)
  | inr e ↦ ground (arith, spread-cons n c cs h, e)
]

Chain-spread :
    {fat : Volume} {d : Disk} {c : ℕ} {cs : List ℕ}
    → Chain fat d c cs
    → length cs ≤ spread (fat.data_clus_cnt + 2) cs
unfolding spread
Chain-spread (end h) = omega arith
Chain-spread {fat} (link {c} {cs} lo hi out more) =
    let inside : ltb c (fat.data_clus_cnt + 2) ≡ true = ground arith in
    let more_there : spread (fat.data_clus_cnt + 2) (c ∷ cs)
        ≡ 1 + spread (fat.data_clus_cnt + 2) cs =
      ground (arith, spread-cons (fat.data_clus_cnt + 2) c cs out, inside) in
    omega (arith, Chain-spread more, more_there)

-- A chain has at most as many clusters as there are numbers for them.
pub Chain-length :
    {fat : Volume} {d : Disk} {c : ℕ} {cs : List ℕ}
    → Chain fat d c cs
    → length cs ≤ fat.data_clus_cnt + 2
Chain-length {fat} {d} {c} {cs} h =
    omega (arith, Chain-spread h, spread-le (fat.data_clus_cnt + 2) cs)

-- A chain does not change when a cluster that is not in it is freed.
Chain-free_clus :
    {fat : Volume} {d : Disk} {c : ℕ} {cs : List ℕ} (x : ℕ)
    → IsMounted fat
    → x ≤ fat.data_clus_cnt + 1
    → mem x cs ≡ false
    → Chain fat d c cs
    → Chain fat (free_clus fat d x) c cs
unfolding free_clus mem
Chain-free_clus x v hx out (end h) = end h
Chain-free_clus {fat} {d} x v hx out (link {c} {cs} lo hi fresh more) =
    let apart : (x == c) ≡ false = ground arith in
    let out' : mem x cs ≡ false = ground arith in
    let same : read_fat fat (free_clus fat d x) c ≡ read_fat fat d c =
      (read_fat-write_fat fat d x c 0 v hx hi (omega arith)).1 ∙ rw apart refl in
    link lo hi fresh (rw same (Chain-free_clus x v hx out' more))

-- On the clusters of the volume, the table now reads 0 for those of `cs` and as before elsewhere.
abbrev pub Freed : Volume → Disk → List ℕ → Disk → Type 0
Freed fat d cs d' =
    (k : ℕ)
    → k ≤ fat.data_clus_cnt + 1
    → read_fat fat d' k ≡ (if mem k cs then 0 else read_fat fat d k)

free_chain-Freed :
    (fat : Volume) (d : Disk) (c : ℕ) (cs : List ℕ) (fuel : ℕ)
    → IsMounted fat
    → Chain fat d c cs
    → length cs < fuel
    → Yields (Freed fat d cs) (free_chain fat fuel c d)
unfolding free_chain mem free_clus
free_chain-Freed fat d c cs zero v ch h = absurd (omega arith)
free_chain-Freed fat d c cs (suc fuel) v (end e) h =
    let stop : (leb 2 c && ltb c fat32_eoc) ≡ false = ground arith in rw stop (λ k hk. refl)
free_chain-Freed fat d c (c' ∷ cs) (suc fuel) v (link lo hi out more) h =
    let two : leb 2 c ≡ true = ground arith in
    let low : ltb c fat32_eoc ≡ true = ground (arith, v.clusters) in
    let next : Disk = free_clus fat d c in
    rw (two, low, free_chain)
      (Yields-map (Freed fat next cs) (Freed fat d (c ∷ cs))
        (free_chain fat fuel (read_fat fat d c) next) (λ d' freed k hk. freed k hk ∙ both k hk)
        (free_chain-Freed fat next (read_fat fat d c) cs fuel v (Chain-free_clus c v hi out more)
          (omega arith)))
  where
    both :
        (k : ℕ)
        → k ≤ fat.data_clus_cnt + 1
        → (if mem k cs then 0 else read_fat fat (free_clus fat d c) k)
          ≡ (if c == k || mem k cs then 0 else read_fat fat d k)
    both k hk = rw (read_fat-write_fat fat d c k 0 v hi hk (omega arith)).1 (ground arith)

-- What is left of a file when it is truncated.
pub record Truncated (fat : Volume) (d : Disk) (e : Dirent) (cs : List ℕ) (r : Dirent × Disk)
    : Type 0 where
  pub freed : Freed fat d cs r.1
  pub empty : r.0 ≡ record e { file_size = 0; first_clus = 0; dirty = true }

-- On a volume whose table holds the chain of a file, etrunc comes to its end: every cluster of the
-- chain is free, every other cluster of the volume has the entry it had, and the file has no
-- cluster and no bytes and is marked dirty.
pub etrunc-Truncated :
    (fat : Volume) (d : Disk) (e : Dirent) (cs : List ℕ)
    → IsMounted fat
    → Chain fat d e.first_clus cs
    → Yields (Truncated fat d e cs) (etrunc fat e d)
unfolding etrunc
etrunc-Truncated fat d e cs v ch =
    Yields->>= (Freed fat d cs) (Truncated fat d e cs)
      (free_chain fat (fat.data_clus_cnt + 3) e.first_clus d)
      (λ d'. ok (record e { file_size = 0; first_clus = 0; dirty = true }, d'))
      (free_chain-Freed fat d e.first_clus cs (fat.data_clus_cnt + 3) v ch
        (omega (arith, Chain-length ch)))
      (λ d' freed. record { freed = freed; empty = refl })
