-- ===== src/FileTable/Counting.antt =====
-- The reference counts of the open files.
use k210_os.Prelude.{
  ℕ, zero, suc, ◌+◌, ◌-◌, ◌%◌, ◌^◌, ◌<◌, ◌≤◌, ◌≡◌, ◌≢◌, inl, inr, refl, ap, ◌∙◌, true, false,
  Option, none, some, List, [], ◌∷◌, arith, ◌==◌, ==→eq, Bool-cases, length, get_or, set, replicate,
  length-set, get_or-set, set-set, set-get_or, Outcome, ok, ◌>>=◌, load-ok, store-ok,
}
use k210_os.FileTable.{
  File, zero_file, find_free, filealloc, filedup, fileclose, is_unused, Released, nothing,
}

abbrev pub file_at : List File → ℕ → File
file_at t i = get_or t i zero_file

-- What filealloc may come to: the first unused file with a count of 1, or no file, all being used.
pub data Allocated (t : List File) : Option ℕ × List File → Type 0 where
  taken :
      {i : ℕ}
      → i < length t
      → (file_at t i).ref ≡ 0
      → ((j : ℕ) → j < i → (file_at t j).ref ≢ 0)
      → Allocated t (some i, set t i (record (file_at t i) { ref = 1 }))
  full : ((j : ℕ) → j < length t → (file_at t j).ref ≢ 0) → Allocated t (none, t)

abbrev IsFree : ℕ → List File → Option ℕ → Type 0
IsFree i t none = (j : ℕ) → j < length t → (file_at t j).ref ≢ 0
IsFree i t (some k) =
    (i ≤ k)
    × (k < i + length t)
    × ((file_at t (k - i)).ref ≡ 0)
    × ((j : ℕ) → j < k - i → (file_at t j).ref ≢ 0)

find_free-IsFree : (i : ℕ) (t : List File) → IsFree i t (find_free i t)
unfolding find_free
find_free-IsFree i [] = λ j h. absurd (omega arith)
find_free-IsFree i (f ∷ fs) = elim (Bool-cases (f.ref == 0)) [
  | inl e ↦
      let self : i - i ≡ 0 = omega arith in
      rw (e, self) (omega arith, omega arith, ==→eq f.ref 0 e, λ j h. absurd (omega arith))
  | inr e ↦
      let ne : f.ref ≢ 0 = ground arith in
      rw e (further ne (find_free (i + 1) fs) (find_free-IsFree (i + 1) fs))
]
  where
    used :
        f.ref ≢ 0
        → ((j : ℕ) → j < length fs → (file_at fs j).ref ≢ 0)
        → (j : ℕ) → j < suc (length fs)
        → (file_at (f ∷ fs) j).ref ≢ 0
    used ne h zero lt = ne
    used ne h (suc j) lt = h j (omega arith)

    earlier :
        f.ref ≢ 0
        → (m : ℕ) → ((j : ℕ) → j < m → (file_at fs j).ref ≢ 0)
        → (j : ℕ) → j < suc m
        → (file_at (f ∷ fs) j).ref ≢ 0
    earlier ne m h zero lt = ne
    earlier ne m h (suc j) lt = h j (omega arith)

    further : f.ref ≢ 0 → (r : Option ℕ) → IsFree (i + 1) fs r → IsFree i (f ∷ fs) r
    further ne none h = λ j lt. used ne h j lt
    further ne (some k) (lo, hi, z, before) =
        let back : k - i ≡ suc (k - (i + 1)) = omega arith in
        (
          omega arith,
          omega arith,
          rw back z,
          rw back (λ j lt. earlier ne (k - (i + 1)) before j lt),
        )

-- filealloc takes the first file whose count is 0 and sets the count to 1, with the rest of the
-- table as it was; when there is none it changes nothing and answers NULL.
pub filealloc-Allocated : (t : List File) → Allocated t (filealloc t)
unfolding filealloc
filealloc-Allocated t = from (find_free 0 t) (find_free-IsFree 0 t)
  where
    from :
        (r : Option ℕ)
        → IsFree 0 t r
        → Allocated t (elim r [
          | some i ↦ (some i, set t i (record (file_at t i) { ref = 1 }))
          | none ↦ (none, t)
        ])
    from none h = full h
    from (some i) (lo, hi, z, before) =
        let same : i - 0 ≡ i = omega arith in taken (omega arith) (rw same at z) (rw same at before)

-- A close that is not the last one counts down.
fileclose-shared :
    (t : List File) (i : ℕ) (f : File)
    → i < length t
    → file_at t i ≡ f
    → 1 < f.ref
    → f.ref < 2 ^ 31
    → fileclose t i ≡ ok (nothing, set t i (record f { ref = f.ref - 1 }))
unfolding fileclose
fileclose-shared t i f h e u w =
    let used : is_unused f.ref ≡ false = ground arith in
    let down : (f.ref + 2 ^ 32 - 1) % 2 ^ 32 ≡ f.ref - 1 = omega arith in
    let more : is_unused (f.ref - 1) ≡ false = ground arith in
    rw (load-ok t i zero_file h, e, used, down, more, store-ok t i (record f { ref = f.ref - 1 }) h)
      refl

-- `n` times filedup on a file, and then `n` times fileclose: what the closes go on to, and the
-- table.
unfoldable pub dup_close : ℕ → List File → ℕ → Outcome (List Released × List File)
dup_close zero t i = ok ([], t)
dup_close (suc n) t i = do
  t1 ← filedup t i
  (rs, t2) ← dup_close n t1 i
  (r, t3) ← fileclose t2 i
  ok (r ∷ rs, t3)

-- A file that is in use, shared by `n` calls of filedup and closed as often, is as it was before,
-- and none of the closes has released what it stands for. Its count and `n` together have to be an
-- `int`.
pub dup_close-eq :
    (n : ℕ) (t : List File) (i : ℕ)
    → i < length t
    → 0 < (file_at t i).ref
    → (file_at t i).ref + n < 2 ^ 31
    → dup_close n t i ≡ ok (replicate n nothing, t)
unfolding dup_close filedup
dup_close-eq zero t i h u w = refl
dup_close-eq (suc n) t i h u w =
    let f : File = file_at t i in
    let used : is_unused f.ref ≡ false = ground arith in
    let up : (f.ref + 1) % 2 ^ 32 ≡ f.ref + 1 = omega arith in
    let t1 : List File = set t i (record f { ref = f.ref + 1 }) in
    let h1 : i < length t1 = omega (arith, length-set t i (record f { ref = f.ref + 1 })) in
    let at1 : file_at t1 i ≡ record f { ref = f.ref + 1 } =
      let self : (i == i) ≡ true = ground arith in
      get_or-set t i i (record f { ref = f.ref + 1 }) zero_file h ∙ rw self refl in
    let back : f.ref + 1 - 1 ≡ f.ref = omega arith in
    let restored : set t1 i (record f { ref = f.ref + 1 - 1 }) ≡ t =
      set-set t i (record f { ref = f.ref + 1 }) (record f { ref = f.ref + 1 - 1 })
      ∙ (ap (λ n. set t i (record f { ref = n })) back ∙ set-get_or t i zero_file) in
    let used1 : 0 < (file_at t1 i).ref = rw at1 (omega arith) in
    let word1 : (file_at t1 i).ref + n < 2 ^ 31 = rw at1 (omega arith) in
    rw
      (
        load-ok t i zero_file h,
        used,
        up,
        store-ok t i (record f { ref = f.ref + 1 }) h,
        dup_close-eq n t1 i h1 used1 word1,
        fileclose-shared t1 i (record f { ref = f.ref + 1 }) h1 at1 (omega arith) (omega arith),
        restored,
      )
      refl
