-- ===== src/Fat32/Directory/ReadBack.antt =====
-- enext reads back what emake writes for a file: its name, its attribute, its cluster and its size.
use k210_os.Prelude.{
  ℕ, zero, suc, ◌+◌, ◌-◌, ◌*◌, ◌/◌, ◌%◌, ◌^◌, ◌<◌, ◌≤◌, ◌≡◌, ◌≢◌, ◌⊎◌, inr, refl, ap, ◌∙◌, true,
  false, List, [], ◌∷◌, ◌++◌, arith, ltb, leb, ◌==◌, eq→==, length, take, get_or-append, ok, Yields,
}
use mathlib.Core.Path.{subst}
use k210_os.Strings.{Bytes}
use k210_os.Fat32.Entry.{Dirent}
use k210_os.Fat32.Name.{char_short_name, char_long_name, generate_shortname, cal_checksum}
use k210_os.Fat32.Name.Short.{generate_shortname-Short, all_short}
use k210_os.Fat32.Directory.{
  attr_long_name, end_of_entry, empty_entry, byte_at, wide_at, order, attr, read_entry_info,
  Scanning, Nexted, file, enext_entry, enext_short,
}
use k210_os.Fat32.Directory.Entries.{
  wide_bytes, long_entry, long_entries, sne_bytes, string_at, dentries,
}
use k210_os.Fat32.Directory.RoundTrip.{
  enext_all, behind, put_memory, Name, Told, Spelled-Told, Retold, long_entries-Retold, IsPart,
  long_entry-IsPart, enext_entry-behind,
}

byte_at-append :
    (xs ys : List ℕ) (i j : ℕ) → i ≡ length xs + j → byte_at (xs ++ ys) i ≡ byte_at ys j
byte_at-append [] ys i j e = let same : i ≡ j = omega arith in rw same refl
byte_at-append (x ∷ xs) ys zero j e = absurd (omega arith)
byte_at-append (x ∷ xs) ys (suc i) j e = byte_at-append xs ys i j (omega arith)

take_all : (n : ℕ) (xs : List ℕ) → length xs ≡ n → take n xs ≡ xs
take_all zero [] e = refl
take_all zero (x ∷ xs) e = absurd (omega arith)
take_all (suc n) [] e = absurd (omega arith)
take_all (suc n) (x ∷ xs) e = ap (◌∷◌ x) (take_all n xs (omega arith))

-- What a short entry needs to be one for enext: its first byte marks neither the end nor an empty
-- entry, and its attribute is not that of a long entry; the numbers fit their fields.
pub record IsEntry (short : List ℕ) (e : Dirent) : Type 0 where
  pub not_end : byte_at short 0 ≢ end_of_entry
  pub not_empty : byte_at short 0 ≢ empty_entry
  pub not_long : e.attribute ≢ attr_long_name
  pub attribute_fits : e.attribute < 2 ^ 8
  pub clus_fits : e.first_clus < 2 ^ 32
  pub size_fits : e.file_size < 2 ^ 32

record Fields (de : List ℕ) (e : Dirent) : Type 0 where
  not_end : (order de == end_of_entry) ≡ false
  not_empty : (order de == empty_entry) ≡ false
  not_long : (attr de == attr_long_name) ≡ false
  attribute : attr de ≡ e.attribute
  clus : wide_at de 20 * 2 ^ 16 + wide_at de 26 ≡ e.first_clus
  size : wide_at de 28 + wide_at de 30 * 2 ^ 16 ≡ e.file_size

-- The bytes of a short entry behind the name.
abbrev info_bytes : Dirent → List ℕ
info_bytes e =
    e.attribute % 2 ^ 8
      ∷ 0
      ∷ 0
      ∷ 0
      ∷ 0
      ∷ 0
      ∷ 0
      ∷ 0
      ∷ 0
      ∷ wide_bytes (e.first_clus / 2 ^ 16 % 2 ^ 16 ∷ 0 ∷ 0 ∷ e.first_clus % 2 ^ 16 ∷ [])
    ++ wide_bytes (e.file_size % 2 ^ 16 ∷ e.file_size / 2 ^ 16 % 2 ^ 16 ∷ [])

sne_bytes-Fields :
    (short : List ℕ) (e : Dirent)
    → IsEntry short e
    → length short ≡ 11
    → Fields (sne_bytes short e.attribute e.first_clus e.file_size) e
unfolding sne_bytes wide_bytes
sne_bytes-Fields short e h eleven =
    let t : List ℕ = info_bytes e in
    let de : List ℕ = sne_bytes short e.attribute e.first_clus e.file_size in
    let whole : de ≡ short ++ t = ap (λ l. l ++ t) (take_all 11 short eleven) in
    let at : (j : ℕ) → byte_at de (11 + j) ≡ byte_at t j = λ j.
      ap (λ l. byte_at l (11 + j)) whole
      ∙ byte_at-append short t (11 + j) j (omega (arith, eleven)) in
    let first : order de ≡ byte_at short 0 =
      ap (λ l. byte_at l 0) whole ∙ get_or-append short t 0 0 (omega (arith, eleven)) in
    let same_attribute : attr de ≡ e.attribute = at 0 ∙ omega (arith, h.attribute_fits) in
    record {
      not_end = ground (arith, first, h.not_end);
      not_empty = ground (arith, first, h.not_empty);
      not_long = ground (arith, same_attribute, h.not_long);
      attribute = same_attribute;
      clus = omega (arith, at 9, at 10, at 15, at 16, h.clus_fits);
      size = omega (arith, at 17, at 18, at 19, at 20, h.size_fits);
    }

enext_entry-short :
    (name : ℕ) (short : List ℕ) (e : Dirent) (s : Scanning)
    → IsEntry short e
    → length short ≡ 11
    → s.cnt ≡ 0
    → let de = sne_bytes short e.attribute e.first_clus e.file_size in
      enext_entry name de s ≡ ok (inr (enext_short name de s))
unfolding enext_entry
enext_entry-short name short e s h eleven none_empty =
    let f : Fields (sne_bytes short e.attribute e.first_clus e.file_size) e =
      sne_bytes-Fields short e h eleven in
    let no_slots : ltb 0 s.cnt ≡ false = ground arith in
    rw (f.not_end, f.not_empty, no_slots, f.not_long) refl

-- What enext has found: a file with these fields, as many entries as were written, and the name of
-- the file at `name`, with the 0 that ends it.
pub record Collected (m : Bytes) (filename n name : ℕ) (e : Dirent) (r : Scanning ⊎ Nexted)
    : Type 0 where
  pub result : Nexted
  pub is_result : r ≡ inr result
  pub type : result.type ≡ file
  pub count : result.count ≡ (n + 12) / 13 + 1
  pub text : (k : ℕ) → k < n → result.memory (name + k) ≡ m (filename + k)
  pub end : result.memory (name + n) ≡ 0
  pub attribute : result.ep.attribute ≡ e.attribute
  pub clus : result.ep.first_clus ≡ e.first_clus
  pub size : result.ep.file_size ≡ e.file_size

string_at-Name :
    (fuel : ℕ) (m : Bytes) (filename n : ℕ)
    → n ≤ fuel
    → ((k : ℕ) → k < n → m (filename + k) ≢ 0)
    → m (filename + n) ≡ 0
    → length (string_at fuel m filename) ≡ n
unfolding string_at
string_at-Name zero m filename n le no_end end = omega arith
string_at-Name (suc fuel) m filename zero le no_end end =
    let here : (m filename == 0) ≡ true = eq→== (m filename) 0 (ap m (omega arith) ∙ end) in
    rw here refl
string_at-Name (suc fuel) m filename (suc n) le no_end end =
    let ne : m filename ≢ 0 = λ z. no_end 0 (omega arith) (ap m (omega arith) ∙ z) in
    let here : (m filename == 0) ≡ false = ground (arith, ne) in
    rw
      (
        here,
        string_at-Name fuel m (filename + 1) n (omega arith)
            (λ k lt z. no_end (k + 1) (omega arith) (ap m (omega arith) ∙ z))
            (ap m (omega arith) ∙ end),
      )
      refl

-- All entries of a name that has some, then the short one.
enext_all-Collected :
    (m : Bytes) (filename n name entcnt checksum : ℕ) (short : List ℕ) (e : Dirent) (s : Scanning)
    → Name m filename n
    → suc entcnt ≡ (n + 12) / 13
    → suc entcnt ≤ 20
    → IsEntry short e
    → length short ≡ 11
    → s.cnt ≡ 0
    → s.counts ≡ true
    → s.so_far.memory (name + n) ≡ 0
    → Yields (Collected m filename n name e) (
        enext_all name
          (long_entries (suc entcnt) (suc entcnt) m filename checksum
            ++ sne_bytes short e.attribute e.first_clus e.file_size ∷ [])
          s)
unfolding enext_all long_entries enext_short read_entry_info
enext_all-Collected m filename n name entcnt checksum short e s t number le h eleven empty counts
      old =
    let last : (suc entcnt == suc entcnt) ≡ true = ground arith in
    let de : List ℕ = long_entry (suc entcnt) (suc entcnt) m filename checksum in
    let s1 : Scanning = behind true (suc entcnt) de name s in
    let one : IsPart m filename (suc entcnt) checksum entcnt s.so_far.memory name true =
      long_entry-IsPart m filename (suc entcnt) checksum entcnt s.so_far.memory name true t.bytes le
        last in
    let more : Retold m filename n name (suc entcnt) checksum entcnt s1 =
      long_entries-Retold m filename n name (suc entcnt) checksum entcnt s1 t (omega arith)
        (omega arith) empty refl in
    let told : Told m filename n name (suc entcnt) s.so_far.memory more.after =
      Spelled-Told m filename n name entcnt s.so_far.memory s1.so_far.memory more.after t
        one.spelled more.told in
    let s2 : Scanning = put_memory s1 more.after in
    let f : Fields (sne_bytes short e.attribute e.first_clus e.file_size) e =
      sne_bytes-Fields short e h eleven in
    rw
      (
        enext_entry-behind name (suc entcnt) true de s one.order_of one.kind empty counts,
        more.goes_on (sne_bytes short e.attribute e.first_clus e.file_size ∷ []),
        enext_entry-short name short e s2 h eleven empty,
      )
      (record {
        result = enext_short name (sne_bytes short e.attribute e.first_clus e.file_size) s2;
        is_result = refl;
        type = refl;
        count = omega (arith, number);
        text = λ k lt. told.text k lt (omega (arith, number));
        end = told.end old;
        attribute = f.attribute;
        clus = f.clus;
        size = f.size;
      })

-- A short name has eleven bytes.
pub length-generate_shortname :
    (text short : List ℕ) → generate_shortname text ≡ ok short → length short ≡ 11
length-generate_shortname text short e =
    (subst (Yields (λ l. (length l ≡ char_short_name) × (all_short l ≡ true))) e
      (generate_shortname-Short text)).0

-- The entries that emake writes behind the first two of a directory.
pub dentries-eq :
    (m : Bytes) (filename n off : ℕ) (short : List ℕ) (e : Dirent)
    → Name m filename n
    → n ≤ 255
    → 32 < off
    → generate_shortname (string_at 255 m filename) ≡ ok short
    → dentries e m filename off
      ≡ ok (
          long_entries ((n + 12) / 13) ((n + 12) / 13) m filename (cal_checksum short)
          ++ sne_bytes short e.attribute e.first_clus e.file_size ∷ [])
unfolding dentries
dentries-eq m filename n off short e t le far shortened =
    let text : List ℕ = string_at 255 m filename in
    let behind_dots : leb off 32 ≡ false = ground arith in
    let len : length text ≡ n = string_at-Name 255 m filename n le t.no_end t.end in
    let count : (length text + char_long_name - 1) / char_long_name ≡ (n + 12) / 13 =
      omega (arith, len) in
    rw (behind_dots, shortened, count) refl

-- The same entries, taken one after the other.
pub dentries-Collected :
    (m : Bytes) (filename n name : ℕ) (short : List ℕ) (e : Dirent) (s : Scanning)
    → Name m filename n
    → 0 < n
    → n ≤ 255
    → length short ≡ 11
    → IsEntry short e
    → s.cnt ≡ 0
    → s.counts ≡ true
    → s.so_far.memory (name + n) ≡ 0
    → Yields (Collected m filename n name e) (
        enext_all name
          (long_entries ((n + 12) / 13) ((n + 12) / 13) m filename (cal_checksum short)
            ++ sne_bytes short e.attribute e.first_clus e.file_size ∷ [])
          s)
dentries-Collected m filename n name short e s t pos le eleven h empty counts old =
    from ((n + 12) / 13) refl
  where
    from :
        (entcnt : ℕ)
        → (n + 12) / 13 ≡ entcnt
        → Yields (Collected m filename n name e) (
            enext_all name
              (long_entries entcnt entcnt m filename (cal_checksum short)
                ++ sne_bytes short e.attribute e.first_clus e.file_size ∷ [])
              s)
    from zero number = absurd (omega (arith, number))
    from (suc i) number =
        enext_all-Collected m filename n name i (cal_checksum short) short e s t
          (omega (arith, number)) (omega (arith, number)) h eleven empty counts old
