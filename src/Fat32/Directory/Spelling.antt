-- ===== src/Fat32/Directory/Spelling.antt =====
-- snstr spells the characters that emake wrote.
use k210_os.Prelude.{
  ℕ, zero, suc, ◌+◌, ◌-◌, ◌%◌, ◌<◌, ◌≤◌, ◌≡◌, ◌≢◌, ◌⊎◌, inl, inr, refl, ap, ◌∙◌, Bool, true, false,
  ◌&&◌, List, [], ◌∷◌, arith, ltb, leb, ◌==◌, if◌then◌else◌, ==→eq, Bool-cases, length, take, drop,
}
use k210_os.Strings.{Bytes, put, memset}
use k210_os.Fat32.Directory.{snstr}
use k210_os.Fat32.Directory.Entries.{wide_chars}
use k210_os.Fat32.Directory.Parts.{length-wide_chars}

-- Where the characters of a name have no 0, up to one of them.
abbrev pub Goes : Bytes → ℕ → ℕ → Type 0
Goes m p k = (j : ℕ) → j < k → m (p + j) ≢ 0

-- The name is written at `dst` as far as `r` characters reach: a character with none but others
-- before it, the end if there was a 0, and nothing elsewhere.
pub record Spelled (m : Bytes) (p r : ℕ) (before : Bytes) (dst : ℕ) (after : Bytes) : Type 0 where
  pub text : (k : ℕ) → k < r → Goes m p (k + 1) → after (dst + k) ≡ m (p + k)
  pub end :
      (k : ℕ) → k < r → Goes m p k → m (p + k) ≡ 0 → before (dst + k) ≡ 0 → after (dst + k) ≡ 0
  pub elsewhere : (x : ℕ) → (x < dst) ⊎ (dst + r ≤ x) → after x ≡ before x

pub memset-value :
    (n : ℕ) (m : Bytes) (dst c x : ℕ)
    → memset n m dst c x ≡ (if leb dst x && ltb x (dst + n) then c % 256 else m x)
unfolding memset
memset-value zero m dst c x = ground arith
memset-value (suc n) m dst c x = ground (arith, memset-value n (put m dst (c % 256)) (dst + 1) c x)

pub snstr-elsewhere :
    (us : List ℕ) (m : Bytes) (dst x : ℕ)
    → (x < dst) ⊎ (dst + length us ≤ x)
    → snstr m dst us x ≡ m x
unfolding snstr
snstr-elsewhere [] m dst x h = refl
snstr-elsewhere (u ∷ us) m dst x h = ground (
  arith,
  memset-value (length us) m dst 0 x,
  snstr-elsewhere us (put m dst (u % 256)) (dst + 1) x,
)

-- No character: the end is written.
memset-Spelled :
    (r : ℕ) (m : Bytes) (p : ℕ) (before : Bytes) (dst : ℕ)
    → m p ≡ 0
    → Spelled m p (suc r) before dst (memset r before dst 0)
memset-Spelled r m p before dst e =
    let first : m (p + 0) ≡ 0 = ap m (omega arith) ∙ e in
    record {
      text = λ k lt goes. absurd (goes 0 (omega arith) first);
      end = λ k lt goes z old. at_end k lt goes old first;
      elsewhere = λ x h. ground (arith, memset-value r before dst 0 x);
    }
  where
    at_end :
        (k : ℕ)
        → k < suc r
        → Goes m p k
        → before (dst + k) ≡ 0
        → m (p + 0) ≡ 0
        → memset r before dst 0 (dst + k) ≡ 0
    at_end zero lt goes old first = ground (arith, memset-value r before dst 0 (dst + 0))
    at_end (suc k) lt goes old first = absurd (goes 0 (omega arith) first)

pub snstr-Spelled :
    (r : ℕ) (m : Bytes) (p : ℕ) (before : Bytes) (dst : ℕ)
    → ((j : ℕ) → m j < 256)
    → Spelled m p r before dst (snstr before dst (wide_chars r m p false))
unfolding snstr wide_chars
snstr-Spelled zero m p before dst bytes = record {
  text = λ k lt. absurd (omega arith);
  end = λ k lt. absurd (omega arith);
  elsewhere = λ x h. refl;
}
snstr-Spelled (suc r) m p before dst bytes = elim (Bool-cases (m p == 0)) [
  | inl e ↦
      rw (e, length-wide_chars r m (p + 1) true) (memset-Spelled r m p before dst (==→eq (m p) 0 e))
  | inr e ↦ rw e (more e (snstr-Spelled r m (p + 1) (put before dst (m p % 256)) (dst + 1) bytes))
]
  where
    more :
        {after : Bytes}
        → (m p == 0) ≡ false
        → Spelled m (p + 1) r (put before dst (m p % 256)) (dst + 1) after
        → Spelled m p (suc r) before dst after
    more {after} e s = record {
      text = text;
      end = end;
      elsewhere = λ x h. ground (arith, s.elsewhere x);
    }
      where
        goes_on : (k : ℕ) → Goes m p (suc k) → Goes m (p + 1) k
        goes_on k goes j lt z = goes (j + 1) (omega arith) (ap m (omega arith) ∙ z)

        text : (k : ℕ) → k < suc r → Goes m p (k + 1) → after (dst + k) ≡ m (p + k)
        text zero lt goes = ground (arith, s.elsewhere dst, bytes p)
        text (suc k) lt goes =
            ap after (omega arith)
            ∙ (s.text k (omega arith) (goes_on (k + 1) (λ j h. goes j (omega arith)))
                ∙ ap m (omega arith))

        untouched :
            (k : ℕ) → before (dst + suc k) ≡ 0 → put before dst (m p % 256) (dst + 1 + k) ≡ 0
        untouched k old =
            let same : before (dst + 1 + k) ≡ 0 = ap before (omega arith) ∙ old in
            ground (arith, same)

        end :
            (k : ℕ)
            → k < suc r
            → Goes m p k
            → m (p + k) ≡ 0
            → before (dst + k) ≡ 0
            → after (dst + k) ≡ 0
        end zero lt goes z old =
            let here : m p ≡ 0 = ap m (omega arith) ∙ z in absurd (ground (arith, e, here))
        end (suc k) lt goes z old =
            ap after (omega arith)
            ∙ s.end k (omega arith) (goes_on k goes) (ap m (omega arith) ∙ z) (untouched k old)

pub take-wide_chars :
    (a b : ℕ) (m : Bytes) (p n : ℕ) (end : Bool)
    → n ≡ a + b
    → take a (wide_chars n m p end) ≡ wide_chars a m p end
unfolding wide_chars
take-wide_chars zero b m p n end e = refl
take-wide_chars (suc a) b m p zero end e = absurd (omega arith)
take-wide_chars (suc a) b m p (suc n) true e =
    ap (◌∷◌ 0xFFFF) (take-wide_chars a b m p n true (omega arith))
take-wide_chars (suc a) b m p (suc n) false e =
    ap (◌∷◌ (m p)) (take-wide_chars a b m (p + 1) n (m p == 0) (omega arith))

pub drop-wide_chars :
    (a b : ℕ) (m : Bytes) (p n : ℕ)
    → n ≡ a + b
    → Goes m p a
    → drop a (wide_chars n m p false) ≡ wide_chars b m (p + a) false
unfolding wide_chars
drop-wide_chars zero b m p n e goes =
    let same : n ≡ b = omega arith in let there : p + 0 ≡ p = omega arith in rw (same, there) refl
drop-wide_chars (suc a) b m p zero e goes = absurd (omega arith)
drop-wide_chars (suc a) b m p (suc n) e goes =
    let first : m p ≢ 0 = λ z. goes 0 (omega arith) (ap m (omega arith) ∙ z) in
    let here : (m p == 0) ≡ false = ground (arith, first) in
    let there : p + 1 + a ≡ p + suc a = omega arith in
    rw
      (
        here,
        drop-wide_chars a b m (p + 1) n (omega arith)
            (λ j lt z. goes (j + 1) (omega arith) (ap m (omega arith) ∙ z)),
        there,
      )
      refl

-- A second part is written behind the first; if the name has ended it may be anything.
pub Spelled-append :
    (a b : ℕ) (m : Bytes) (p : ℕ) (before middle after : Bytes) (dst : ℕ)
    → Spelled m p a before dst middle
    → ((x : ℕ) → (x < dst + a) ⊎ (dst + a + b ≤ x) → after x ≡ middle x)
    → (Goes m p a → Spelled m (p + a) b middle (dst + a) after)
    → Spelled m p (a + b) before dst after
Spelled-append a b m p before middle after dst s outside t = record {
  text = λ k lt goes. elim (Bool-cases (ltb k a)) [
    | inl e ↦ outside (dst + k) (inl (ground arith)) ∙ s.text k (ground arith) goes
    | inr e ↦
        let go : Goes m p a = λ j h. goes j (ground arith) in
        later_text k (ground arith) lt goes (t go)
  ];
  end = λ k lt goes z old. elim (Bool-cases (ltb k a)) [
    | inl e ↦ outside (dst + k) (inl (ground arith)) ∙ s.end k (ground arith) goes z old
    | inr e ↦
        let go : Goes m p a = λ j h. goes j (ground arith) in
        later_end k (ground arith) lt goes z old (t go)
  ];
  elsewhere = λ x h. elim h [
    | inl lt ↦ outside x (inl (omega arith)) ∙ s.elsewhere x (inl lt)
    | inr le ↦ outside x (inr (omega arith)) ∙ s.elsewhere x (inr (omega arith))
  ];
}
  where
    beyond : (k : ℕ) → a ≤ k → Goes m p k → Goes m (p + a) (k - a)
    beyond k le goes j lt z = goes (a + j) (omega arith) (ap m (omega arith) ∙ z)

    later_text :
        (k : ℕ)
        → a ≤ k
        → k < a + b
        → Goes m p (k + 1)
        → Spelled m (p + a) b middle (dst + a) after
        → after (dst + k) ≡ m (p + k)
    later_text k le lt goes u =
        ap after (omega arith)
        ∙ (u.text (k - a) (omega arith)
              (λ j h z. goes (a + j) (omega arith) (ap m (omega arith) ∙ z))
            ∙ ap m (omega arith))

    later_end :
        (k : ℕ)
        → a ≤ k
        → k < a + b
        → Goes m p k
        → m (p + k) ≡ 0
        → before (dst + k) ≡ 0
        → Spelled m (p + a) b middle (dst + a) after
        → after (dst + k) ≡ 0
    later_end k le lt goes z old u =
        ap after (omega arith)
        ∙ u.end (k - a) (omega arith) (beyond k le goes) (ap m (omega arith) ∙ z)
            (ap middle (omega arith) ∙ (s.elsewhere (dst + k) (inr (omega arith)) ∙ old))
