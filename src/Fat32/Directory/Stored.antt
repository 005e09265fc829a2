-- ===== src/Fat32/Directory/Stored.antt =====
-- emake and then enext: what is read back from the disk.
use k210_os.Prelude.{
  ℕ, ◌+◌, ◌*◌, ◌/◌, ◌%◌, ◌<◌, ◌≤◌, ◌≡◌, ◌⊎◌, refl, ap, ◌∙◌, true, false, ◌&&◌, List, [], ◌∷◌, ◌++◌,
  arith, ltb, leb, ◌==◌, if◌then◌else◌, eq→==, length, length-append, Outcome, ok, panic, fault,
  hang, ◌>>=◌, Yields, Yields->>=, Yields-map,
}
use k210_os.Strings.{Bytes, memset}
use k210_os.Fat32.Sector.{Disk}
use k210_os.Fat32.{Volume}
use k210_os.Fat32.Table.{IsMounted}
use k210_os.Fat32.Entry.{Dirent, is_directory}
use k210_os.Fat32.Name.{generate_shortname, cal_checksum, max_filename}
use k210_os.Fat32.Directory.{Scanning, Nexted, file, no_more, enext, enext_loop}
use k210_os.Fat32.Directory.Entries.{
  long_entries, sne_bytes, string_at, dentries, emake, write_dentries,
}
use k210_os.Fat32.Directory.Spelling.{memset-value}
use k210_os.Fat32.Directory.RoundTrip.{Name, enext_all}
use k210_os.Fat32.Directory.ReadBack.{
  IsEntry, Collected, length-generate_shortname, dentries-eq, dentries-Collected,
}
use k210_os.Fat32.Directory.OnDisk.{HasRoom, MatchesAll, scan_dp, enext_loop-enext_all}
use k210_os.Fat32.Directory.Sectors.{IsSimple}
use k210_os.Fat32.Directory.Writing.{AllBytes, AreDentries, HasWritten, write_dentries-HasWritten}
use k210_os.Fat32.Directory.Shapes.{
  cal_checksum-lt, sne_bytes-dentry, AreDentries-append, long_entries-AreDentries,
  length-long_entries,
}

-- emake, and then enext at the same offset into a name at `name` of any memory
unfoldable pub make_next :
    Volume → ℕ → Dirent → Dirent → Bytes → ℕ → ℕ → Dirent → ℕ → ℕ → Bytes → Disk → Outcome Nexted
make_next fat fuel dp ep m filename off e0 name count m' d =
    emake fat dp ep m filename off d >>= λ r. enext fat fuel true r.0 e0 false name off count m' r.1

-- What enext has found: a file with these fields, as many entries as were written, and the name of
-- the file at `name`, with the 0 that ends it.
pub record ReadBack (m : Bytes) (filename n name : ℕ) (e : Dirent) (r : Nexted) : Type 0 where
  pub type : r.type ≡ file
  pub count : r.count ≡ (n + 12) / 13 + 1
  pub text : (k : ℕ) → k < n → r.memory (name + k) ≡ m (filename + k)
  pub end : r.memory (name + n) ≡ 0
  pub attribute : r.ep.attribute ≡ e.attribute
  pub clus : r.ep.first_clus ≡ e.first_clus
  pub size : r.ep.file_size ≡ e.file_size

Collected-ReadBack :
    (m : Bytes) (filename n name : ℕ) (e : Dirent) (m1 : Outcome (Scanning ⊎ Nexted))
    (r : Outcome Nexted)
    → Yields (Collected m filename n name e) m1
    → MatchesAll m1 r
    → Yields (ReadBack m filename n name e) r
Collected-ReadBack m filename n name e (ok x) r c all =
    Yields-map (λ y. y ≡ record (c.result) { dp = y.dp }) (ReadBack m filename n name e) r
      (λ y eq. record {
        type = ap (λ z. z.type) eq ∙ c.type;
        count = ap (λ z. z.count) eq ∙ c.count;
        text = λ k lt. ap (λ z. z.memory (name + k)) eq ∙ c.text k lt;
        end = ap (λ z. z.memory (name + n)) eq ∙ c.end;
        attribute = ap (λ z. z.ep.attribute) eq ∙ c.attribute;
        clus = ap (λ z. z.ep.first_clus) eq ∙ c.clus;
        size = ap (λ z. z.ep.file_size) eq ∙ c.size;
      })
      (all c.result (ap ok c.is_result))
Collected-ReadBack m filename n name e panic r c all = absurd c
Collected-ReadBack m filename n name e fault r c all = absurd c
Collected-ReadBack m filename n name e hang r c all = absurd c

cleared_end : (m : Bytes) (name n : ℕ) → n ≤ 255 → memset (max_filename + 1) m name 0 (name + n) ≡ 0
cleared_end m name n le =
    let test : (leb name (name + n) && ltb (name + n) (name + 256)) ≡ true = ground arith in
    memset-value 256 m name 0 (name + n) ∙ ap (λ b. if b then 0 else m (name + n)) test

emake-write_dentries :
    (fat : Volume) (dp e : Dirent) (m : Bytes) (filename off : ℕ) (d : Disk) (des : List (List ℕ))
    → is_directory dp ≡ true
    → off % 32 ≡ 0
    → dentries e m filename off ≡ ok des
    → emake fat dp e m filename off d ≡ write_dentries fat dp off des d
unfolding emake
emake-write_dentries fat dp e m filename off d des dir a made =
    let aligned : (off % 32 == 0) ≡ true = eq→== (off % 32) 0 a in rw (dir, aligned, made) refl

-- enext before its loop
abbrev begun : ℕ → Dirent → ℕ → ℕ → Bytes → Scanning
begun count ep name off m = record {
  cnt = 0;
  counts = true;
  so_far = record {
    type = no_more;
    count = count;
    memory = memset (max_filename + 1) m name 0;
    ep = ep;
    dp = ep;
  };
}

enext-enext_loop :
    (fat : Volume) (fuel : ℕ) (dp ep : Dirent) (name off count : ℕ) (m : Bytes) (d : Disk)
    → is_directory dp ≡ true
    → off % 32 ≡ 0
    → enext fat fuel true dp ep false name off count m d
      ≡ enext_loop fat fuel name off d (scan_dp (begun count ep name off m) dp)
unfolding enext
enext-enext_loop fat fuel dp ep name off count m d dir a =
    let aligned : (off % 32 == 0) ≡ true = eq→== (off % 32) 0 a in rw (dir, aligned) refl

-- emake of a file in a directory, at an aligned offset behind its first two entries, and then enext
-- at that offset, with any memory, count and file to fill in: emake returns, and enext returns 1
-- with the number of the entries, the name, the attribute, the first cluster and the size. The
-- volume is mounted, enext has fuel for the entries, the memory holds bytes, and the name has 1 to
-- 255 of them with a 0 behind. The attribute is not that of a long entry, the short name is the one that
-- generate_shortname makes, of bytes, and begins neither with 0 nor with the mark of an empty
-- entry, and the fields fit. The directory's cursor is right, and its chain has the clusters for
-- the entries, none of them twice.
pub make_next-ReadBack :
    (fat : Volume) (d : Disk) (dp e e0 : Dirent) (m m' : Bytes)
    (filename n name off limit fuel count : ℕ) (short : List ℕ)
    → IsMounted fat
    → HasRoom fat d dp limit
    → IsSimple fat d dp.first_clus limit
    → is_directory dp ≡ true
    → off % 32 ≡ 0
    → 32 < off
    → off + 32 * ((n + 12) / 13 + 1) ≤ limit
    → (n + 12) / 13 + 1 ≤ fuel
    → Name m filename n
    → 0 < n
    → n ≤ 255
    → generate_shortname (string_at 255 m filename) ≡ ok short
    → AllBytes short
    → IsEntry short e
    → Yields
        (ReadBack m filename n name e)
        (make_next fat fuel dp e m filename off e0 name count m' d)
unfolding make_next
make_next-ReadBack fat d dp e e0 m m' filename n name off limit fuel count short v room simple dir a
      far le few t pos short_name shortened bytes h =
    let eleven : length short ≡ 11 =
      length-generate_shortname (string_at 255 m filename) short shortened in
    let entcnt : ℕ = (n + 12) / 13 in
    let longs : List (List ℕ) = long_entries entcnt entcnt m filename (cal_checksum short) in
    let last : List ℕ = sne_bytes short e.attribute e.first_clus e.file_size in
    let des : List (List ℕ) = longs ++ last ∷ [] in
    let many : length des ≡ entcnt + 1 = omega (
      arith,
      length-append longs (last ∷ []),
      length-long_entries entcnt entcnt m filename (cal_checksum short),
    ) in
    let are : AreDentries des =
      AreDentries-append longs (last ∷ [])
        (long_entries-AreDentries entcnt entcnt m filename (cal_checksum short) (omega arith)
          (cal_checksum-lt short))
        (sne_bytes-dentry short e.attribute e.first_clus e.file_size eleven bytes, tt) in
    let s : Scanning = begun count e0 name off m' in
    rw
      (emake-write_dentries fat dp e m filename off d des dir a
        (dentries-eq m filename n off short e t short_name far shortened))
      (Yields->>= (HasWritten fat d dp limit off des) (ReadBack m filename n name e)
        (write_dentries fat dp off des d)
        (λ r. enext fat fuel true r.0 e0 false name off count m' r.1)
        (write_dentries-HasWritten fat d dp limit off des v room simple a (omega (arith, many)) are)
        (λ r w.
          let dir' : is_directory r.0 ≡ true = ap (λ x. x / 16 % 2 == 1) w.same_kind ∙ dir in
          rw (enext-enext_loop fat fuel r.0 e0 name off count m' r.1 dir' a) (
            Collected-ReadBack m filename n name e (enext_all name des s)
              (enext_loop fat fuel name off r.1 (scan_dp s r.0))
              (dentries-Collected m filename n name short e s t pos short_name eleven h refl refl
                (cleared_end m' name n short_name))
              (enext_loop-enext_all fat r.1 name dp.first_clus limit v fuel off des s r.0
                w.same_first w.room a (omega (arith, many)) (omega (arith, many)) w.lie))))
