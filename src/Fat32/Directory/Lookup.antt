-- ===== src/Fat32/Directory/Lookup.antt =====
-- src/fs_fat32.c: the search of dirlookup through a directory, behind the cache of entries.
use k210_os.Prelude.{
  ℕ, zero, suc, ◌+◌, ◌*◌, ◌≡◌, refl, Bool, true, false, Option, none, some, leb, ◌==◌,
  if◌then◌else◌, Outcome, ok, panic, fault, hang, ◌>>=◌,
}
use k210_os.Strings.{strncmp}
use k210_os.Fat32.Sector.{Disk}
use k210_os.Fat32.{Volume, u32}
use k210_os.Fat32.Name.{max_filename}
use k210_os.Fat32.Directory.{Next, no_more, slots, file, Nexted, enext}

-- `enext(…) != -1`, as a number
abbrev pub is_not_end : Next → ℕ
is_not_end no_more = 0
is_not_end slots = 1
is_not_end file = 1

-- The file is at an offset, or is not there; `*poff` then, if it was written.
pub data Found : Type 0 where
  found : ℕ → Nexted → Found
  missing : Option ℕ → Nexted → Found

module _ (fat : Volume) (entries : ℕ) (filename name : ℕ) (d : Disk) where
  -- The entries that enext may meet are bounded by `entries`, the rounds by the fuel. `poff` is none
  -- until it is written, and it is not NULL before. The loop keeps the comparison in `type`, so
  -- that the branch for empty slots is not taken.
  unfoldable pub search : ℕ → ℕ → ℕ → Option ℕ → Nexted → Outcome Found
  search zero entcnt off poff r = hang
  search (suc fuel) entcnt off poff r = do
    r' ← enext fat entries true r.dp r.ep false name off r.count r.memory d
    let type : ℕ = is_not_end r'.type
    let fits : Option ℕ = elim poff [
      | some at ↦ some at
      | none ↦ if leb entcnt r'.count then some off else none
    ]
    let next : ℕ = u32 (off + r'.count * 32)
    let in_slots : Outcome Found = search fuel entcnt next fits r'
    let on : Outcome Found = search fuel entcnt next poff r'
    let compared : Outcome Found =
        (if strncmp max_filename r'.memory filename name == 0 then ok (found off r') else on)
    let stored : Option ℕ = elim poff [ some at ↦ some at | none ↦ some off ]
    if type == 0 then ok (missing stored r') else if type == 0 then in_slots else compared

  -- Where enext met the end: the answer of a search that finds no file.
  pub record AtEnd (off : ℕ) (r' : Nexted) : Type 0 where
    pub before : Nexted
    pub asked :
        enext fat entries true before.dp before.ep false name off before.count before.memory d
        ≡ ok r'
    pub is_end : r'.type ≡ no_more

  pub data EndsAt : Found → Type 0 where
    is_found : {off : ℕ} {r : Nexted} → EndsAt (found off r)
    at_end : {off : ℕ} {r : Nexted} → AtEnd off r → EndsAt (missing (some off) r)

  abbrev pub IfOk : (Found → Type 0) → Outcome Found → Type 0
  IfOk P (ok a) = P a
  IfOk P panic = Unit
  IfOk P fault = Unit
  IfOk P hang = Unit

  choose :
      (b : Bool) (x y : Outcome Found)
      → IfOk EndsAt x
      → IfOk EndsAt y
      → IfOk EndsAt (if b then x else y)
  choose true x y h k = h
  choose false x y h k = k

  search-at_end : (fuel entcnt off : ℕ) (r : Nexted) → IfOk EndsAt (search fuel entcnt off none r)
  unfolding search
  search-at_end zero entcnt off r = tt
  search-at_end (suc fuel) entcnt off r =
      from (enext fat entries true r.dp r.ep false name off r.count r.memory d) refl
        (λ next r'. search-at_end fuel entcnt next r')
    where
      ended :
          (r' : Nexted) (t : Next)
          → enext fat entries true r.dp r.ep false name off r.count r.memory d ≡ ok r'
          → r'.type ≡ t
          → ((next : ℕ) (r2 : Nexted) → IfOk EndsAt (search fuel entcnt next none r2))
          → IfOk EndsAt (search (suc fuel) entcnt off none r)
      ended r' no_more e et rest =
          let t : (is_not_end r'.type == 0) ≡ true = rw et refl in
          rw (e, t) (at_end (record { before = r; asked = e; is_end = et }))
      ended r' slots e et rest =
          let t : (is_not_end r'.type == 0) ≡ false = rw et refl in
          rw (e, t)
            (choose (strncmp max_filename r'.memory filename name == 0) _ _ is_found
              (rest (u32 (off + r'.count * 32)) r'))
      ended r' file e et rest =
          let t : (is_not_end r'.type == 0) ≡ false = rw et refl in
          rw (e, t)
            (choose (strncmp max_filename r'.memory filename name == 0) _ _ is_found
              (rest (u32 (off + r'.count * 32)) r'))

      from :
          (q : Outcome Nexted)
          → enext fat entries true r.dp r.ep false name off r.count r.memory d ≡ q
          → ((next : ℕ) (r2 : Nexted) → IfOk EndsAt (search fuel entcnt next none r2))
          → IfOk EndsAt (search (suc fuel) entcnt off none r)
      from (ok r') e rest = ended r' r'.type e refl rest
      from panic e rest = rw e tt
      from fault e rest = rw e tt
      from hang e rest = rw e tt

  search-same :
      (fuel entcnt entcnt' off : ℕ) (r : Nexted)
      → search fuel entcnt off none r ≡ search fuel entcnt' off none r
  unfolding search
  search-same zero entcnt entcnt' off r = refl
  search-same (suc fuel) entcnt entcnt' off r =
      from (enext fat entries true r.dp r.ep false name off r.count r.memory d) refl
        (λ next r'. search-same fuel entcnt entcnt' next r')
    where
      round :
          (r' : Nexted) (t : Next)
          → enext fat entries true r.dp r.ep false name off r.count r.memory d ≡ ok r'
          → r'.type ≡ t
          → ((next : ℕ) (r2 : Nexted)
              → search fuel entcnt next none r2 ≡ search fuel entcnt' next none r2)
          → search (suc fuel) entcnt off none r ≡ search (suc fuel) entcnt' off none r
      round r' no_more e et rest =
          let t : (is_not_end r'.type == 0) ≡ true = rw et refl in rw (e, t) refl
      round r' slots e et rest =
          let t : (is_not_end r'.type == 0) ≡ false = rw et refl in
          rw (e, t, rest (u32 (off + r'.count * 32)) r') refl
      round r' file e et rest =
          let t : (is_not_end r'.type == 0) ≡ false = rw et refl in
          rw (e, t, rest (u32 (off + r'.count * 32)) r') refl

      from :
          (q : Outcome Nexted)
          → enext fat entries true r.dp r.ep false name off r.count r.memory d ≡ q
          → ((next : ℕ) (r2 : Nexted)
              → search fuel entcnt next none r2 ≡ search fuel entcnt' next none r2)
          → search (suc fuel) entcnt off none r ≡ search (suc fuel) entcnt' off none r
      from (ok r') e rest = round r' r'.type e refl rest
      from panic e rest = rw e refl
      from fault e rest = rw e refl
      from hang e rest = rw e refl

  -- When a search that starts with `poff` not written finds no file, it writes to `poff` the offset
  -- that its last call of enext was given, the one that met the end of the directory; and the search
  -- comes to the same whatever number of entries it is to find room for.
  pub search-EndsAt :
      (fuel entcnt off : ℕ) (r : Nexted)
      → IfOk EndsAt (search fuel entcnt off none r)
        × ((entcnt' : ℕ) → search fuel entcnt off none r ≡ search fuel entcnt' off none r)
  search-EndsAt fuel entcnt off r =
      (search-at_end fuel entcnt off r, λ entcnt'. search-same fuel entcnt entcnt' off r)
