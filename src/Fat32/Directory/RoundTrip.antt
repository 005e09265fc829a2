-- ===== src/Fat32/Directory/RoundTrip.antt =====
-- enext on the entries that emake makes of a file.
use k210_os.Prelude.{
  ℕ, zero, suc, ◌+◌, ◌-◌, ◌*◌, ◌<◌, ◌≤◌, ◌≡◌, ◌≢◌, ◌⊎◌, inl, inr, refl, ap, ◌∙◌, Bool, true, false,
  ◌&&◌, ◌||◌, List, [], ◌∷◌, ◌++◌, arith, ltb, leb, ◌==◌, if◌then◌else◌, Bool-cases, Outcome, ok,
  ◌>>=◌,
}
use k210_os.Strings.{Bytes}
use k210_os.Fat32.Name.{char_long_name}
use k210_os.Fat32.Directory.{
  attr_long_name, end_of_entry, empty_entry, order, attr, is_last, without_last, read_entry_name,
  Scanning, Nexted, enext_entry, enext_long,
}
use k210_os.Fat32.Directory.Entries.{wide_chars, lne_bytes, long_entry, long_entries}
use k210_os.Fat32.Directory.Parts.{length-wide_chars, Parts, lne_bytes-Parts}
use k210_os.Fat32.Directory.Spelling.{Goes, Spelled}
use k210_os.Fat32.Directory.LongName.{AllWide-wide_chars, read_entry_name-Spelled}

-- The rounds of enext on entries that are read one after the other.
unfoldable pub enext_all : ℕ → List (List ℕ) → Scanning → Outcome (Scanning ⊎ Nexted)
enext_all name [] s = ok (inl s)
enext_all name (de ∷ des) s =
    enext_entry name de s >>= λ r. elim r [ inl s2 ↦ enext_all name des s2 | inr x ↦ ok (inr x) ]

-- The loop behind a long entry with the number `i`, the last of the name or another.
abbrev pub behind : Bool → ℕ → List ℕ → ℕ → Scanning → Scanning
behind true i de name s = record s {
  counts = false;
  so_far = record (s.so_far) {
    count = i + 1;
    memory = read_entry_name s.so_far.memory (name + (i - 1) * char_long_name) de;
  };
}
behind false i de name s = record s {
  so_far = record (s.so_far) {
    memory = read_entry_name s.so_far.memory (name + (i - 1) * char_long_name) de;
  };
}

pub record IsOrder (o i : ℕ) (last : Bool) : Type 0 where
  not_end : (o == end_of_entry) ≡ false
  not_empty : (o == empty_entry) ≡ false
  is_last : is_last o ≡ last
  number : without_last o ≡ i
  fits : (i == 0 || ltb 20 i) ≡ false

IsOrder-intro : (i : ℕ) (last : Bool) → 0 < i → i ≤ 20 → IsOrder (if last then i + 64 else i) i last
IsOrder-intro i true pos le = record {
  not_end = ground arith;
  not_empty = ground arith;
  is_last = ground arith;
  number = ground arith;
  fits = ground arith;
}
IsOrder-intro i false pos le = record {
  not_end = ground arith;
  not_empty = ground arith;
  is_last = ground arith;
  number = ground arith;
  fits = ground arith;
}

pub enext_entry-behind :
    (name i : ℕ) (last : Bool) (de : List ℕ) (s : Scanning)
    → IsOrder (order de) i last
    → attr de ≡ attr_long_name
    → s.cnt ≡ 0
    → s.counts ≡ last
    → enext_entry name de s ≡ ok (inl (behind last i de name s))
unfolding enext_entry enext_long
enext_entry-behind name i last de s o kind none_empty counts = from last o counts
  where
    no_slots : ltb 0 s.cnt ≡ false
    no_slots = ground arith

    long : (attr de == attr_long_name) ≡ true
    long = rw kind refl

    from :
        (b : Bool)
        → IsOrder (order de) i b
        → s.counts ≡ b
        → enext_entry name de s ≡ ok (inl (behind b i de name s))
    from true q c = rw (q.not_end, q.not_empty, no_slots, long, q.number, q.fits, q.is_last, c) refl
    from false q c = rw (q.not_end, q.not_empty, no_slots, long, q.number, q.fits, q.is_last) refl

-- A name of `n` bytes in the memory, none of them 0, and a 0.
pub record Name (m : Bytes) (filename n : ℕ) : Type 0 where
  pub bytes : (j : ℕ) → m j < 256
  pub no_end : (k : ℕ) → k < n → m (filename + k) ≢ 0
  pub end : m (filename + n) ≡ 0

-- The first `i` parts of the name stand at `name`; a 0 at its end has stayed, and nothing has
-- changed behind the parts.
pub record Told (m : Bytes) (filename n name i : ℕ) (before after : Bytes) : Type 0 where
  pub text : (k : ℕ) → k < n → k < i * 13 → after (name + k) ≡ m (filename + k)
  pub end : before (name + n) ≡ 0 → after (name + n) ≡ 0
  pub beyond : (x : ℕ) → name + i * 13 ≤ x → after x ≡ before x

pub Spelled-Told :
    (m : Bytes) (filename n name i : ℕ) (before middle after : Bytes)
    → Name m filename n
    → Spelled m (filename + i * 13) 13 before (name + i * 13) middle
    → Told m filename n name i middle after
    → Told m filename n name (suc i) before after
Spelled-Told m filename n name i before middle after t s r = record {
  text = λ k lt in_part. elim (Bool-cases (ltb k (i * 13))) [
    | inl e ↦ r.text k lt (ground arith)
    | inr e ↦ here k lt in_part (ground arith)
  ];
  end = λ old. r.end (elim (Bool-cases (leb (i * 13) n && ltb n (suc i * 13))) [
    | inl e ↦ last (ground arith) (ground arith) old
    | inr e ↦ s.elsewhere (name + n) (ground arith) ∙ old
  ]);
  beyond = λ x h. r.beyond x (omega arith) ∙ s.elsewhere x (inr (omega arith));
}
  where
    goes : (k : ℕ) → i * 13 ≤ k → k ≤ n → Goes m (filename + i * 13) (k - i * 13)
    goes k le lt j h z = t.no_end (i * 13 + j) (omega arith) (ap m (omega arith) ∙ z)

    here : (k : ℕ) → k < n → k < suc i * 13 → i * 13 ≤ k → after (name + k) ≡ m (filename + k)
    here k lt in_part le =
        r.beyond (name + k) (omega arith)
        ∙ (ap middle (omega arith)
            ∙ (s.text (k - i * 13) (omega arith)
                  (λ j h. goes (suc k) (omega arith) (omega arith) j (omega arith))
                ∙ ap m (omega arith)))

    last : i * 13 ≤ n → n < suc i * 13 → before (name + n) ≡ 0 → middle (name + n) ≡ 0
    last le lt old =
        ap middle (omega arith)
        ∙ s.end (n - i * 13) (omega arith) (goes n le (omega arith)) (ap m (omega arith) ∙ t.end)
            (ap before (omega arith) ∙ old)

abbrev pub put_memory : Scanning → Bytes → Scanning
put_memory s m = record s { so_far = record (s.so_far) { memory = m } }

-- The long entries from `i` down, all but the last of the name.
pub record Retold (m : Bytes) (filename n name entcnt checksum i : ℕ) (s : Scanning) : Type 0 where
  pub after : Bytes
  pub told : Told m filename n name i s.so_far.memory after
  pub goes_on :
      (rest : List (List ℕ))
      → enext_all name (long_entries i entcnt m filename checksum ++ rest) s
        ≡ enext_all name rest (put_memory s after)

long_entry-eq :
    (i entcnt : ℕ) (m : Bytes) (filename checksum : ℕ)
    → long_entry (suc i) entcnt m filename checksum
      ≡ lne_bytes
          (if suc i == entcnt then suc i + 64 else suc i)
          checksum
          (wide_chars 13 m (filename + i * 13) false)
unfolding long_entry
long_entry-eq i entcnt m filename checksum =
    let same : filename + (suc i - 1) * 13 ≡ filename + i * 13 = omega arith in rw same refl

-- One long entry of a name.
pub record IsPart (m : Bytes) (filename entcnt checksum i : ℕ) (before : Bytes) (name : ℕ)
    (last : Bool) : Type 0 where
  pub order_of : IsOrder (order (long_entry (suc i) entcnt m filename checksum)) (suc i) last
  pub kind : attr (long_entry (suc i) entcnt m filename checksum) ≡ attr_long_name
  pub spelled : Spelled m (filename + i * 13) 13 before (name + i * 13) (
      read_entry_name before
        (name + (suc i - 1) * char_long_name)
        (long_entry (suc i) entcnt m filename checksum))

pub long_entry-IsPart :
    (m : Bytes) (filename entcnt checksum i : ℕ) (before : Bytes) (name : ℕ) (last : Bool)
    → ((j : ℕ) → m j < 256)
    → suc i ≤ 20
    → (suc i == entcnt) ≡ last
    → IsPart m filename entcnt checksum i before name last
unfolding lne_bytes
long_entry-IsPart m filename entcnt checksum i before name last bytes le e =
    let us : List ℕ = wide_chars 13 m (filename + i * 13) false in
    let o : ℕ = if suc i == entcnt then suc i + 64 else suc i in
    let there : name + (suc i - 1) * 13 ≡ name + i * 13 = omega arith in
    let parts : Parts (lne_bytes o checksum us) us =
      lne_bytes-Parts o checksum us (length-wide_chars 13 m (filename + i * 13) false)
        (AllWide-wide_chars 13 m (filename + i * 13) false bytes) in
    record {
      order_of =
          rw (long_entry-eq i entcnt m filename checksum, e)
            (IsOrder-intro (suc i) last (omega arith) le);
      kind = rw (long_entry-eq i entcnt m filename checksum) parts.kind;
      spelled =
          rw (long_entry-eq i entcnt m filename checksum, there)
            (read_entry_name-Spelled m (filename + i * 13) o checksum before (name + i * 13) bytes);
    }

pub long_entries-Retold :
    (m : Bytes) (filename n name entcnt checksum i : ℕ) (s : Scanning)
    → Name m filename n
    → i < entcnt
    → i ≤ 20
    → s.cnt ≡ 0
    → s.counts ≡ false
    → Retold m filename n name entcnt checksum i s
unfolding long_entries enext_all
long_entries-Retold m filename n name entcnt checksum zero s t lt le empty counts = record {
  after = s.so_far.memory;
  told = record { text = λ k h h'. absurd (omega arith); end = λ h. h; beyond = λ x h. refl };
  goes_on = λ rest. refl;
}
long_entries-Retold m filename n name entcnt checksum (suc i) s t lt le empty counts =
    let other : (suc i == entcnt) ≡ false = ground arith in
    let de : List ℕ = long_entry (suc i) entcnt m filename checksum in
    let s1 : Scanning = behind false (suc i) de name s in
    let one : IsPart m filename entcnt checksum i s.so_far.memory name false =
      long_entry-IsPart m filename entcnt checksum i s.so_far.memory name false t.bytes le other in
    let more : Retold m filename n name entcnt checksum i s1 =
      long_entries-Retold m filename n name entcnt checksum i s1 t (omega arith) (omega arith) empty
        counts in
    record {
      after = more.after;
      told =
          Spelled-Told m filename n name i s.so_far.memory s1.so_far.memory more.after t one.spelled
            more.told;
      goes_on = λ rest.
          rw (enext_entry-behind name (suc i) false de s one.order_of one.kind empty counts)
            (more.goes_on rest);
    }
