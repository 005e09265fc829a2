-- ===== src/Fat32/Directory/Parts.antt =====
-- The wide characters that emake writes in a long entry are those that enext reads.
use k210_os.Prelude.{
  ℕ, zero, suc, ◌+◌, ◌-◌, ◌*◌, ◌/◌, ◌%◌, ◌^◌, ◌<◌, ◌≤◌, ◌≡◌, refl, sym, ap, ◌∙◌, Bool, true, false,
  List, [], ◌∷◌, ◌++◌, arith, ◌==◌, length, take, drop, length-append,
}
use mathlib.Core.List.{append-nil, append_assoc}
use k210_os.Strings.{Bytes}
use k210_os.Fat32.Directory.{attr_long_name, byte_at, attr, wides_at}
use k210_os.Fat32.Directory.Entries.{wide_chars, wide_bytes, lne_bytes}

pub length-wide_chars : (n : ℕ) (m : Bytes) (p : ℕ) (end : Bool) → length (wide_chars n m p end) ≡ n
unfolding wide_chars
length-wide_chars zero m p end = refl
length-wide_chars (suc n) m p true = ap suc (length-wide_chars n m p true)
length-wide_chars (suc n) m p false = ap suc (length-wide_chars n m (p + 1) (m p == 0))

byte_at-length :
    (pre : List ℕ) (x : ℕ) (post : List ℕ) (i : ℕ)
    → i ≡ length pre
    → byte_at (pre ++ x ∷ post) i ≡ x
byte_at-length [] x post zero e = refl
byte_at-length [] x post (suc i) e = absurd (omega arith)
byte_at-length (y ∷ pre) x post zero e = absurd (omega arith)
byte_at-length (y ∷ pre) x post (suc i) e = byte_at-length pre x post i (omega arith)

-- All of these fit in sixteen bits.
unfoldable pub AllWide : List ℕ → Type 0
AllWide [] = Unit
AllWide (u ∷ us) = (u < 2 ^ 16) × AllWide us

-- The wide characters that were written behind `pre` are read at its length.
wides_at-wide_bytes :
    (pre us post : List ℕ) (i : ℕ)
    → i ≡ length pre
    → AllWide us
    → wides_at (pre ++ (wide_bytes us ++ post)) i (length us) ≡ us
unfolding wides_at wide_bytes AllWide
wides_at-wide_bytes pre [] post i e w = refl
wides_at-wide_bytes pre (u ∷ us) post i e (here, w) =
    let lo : ℕ = u % 2 ^ 8 in
    let hi : ℕ = u / 2 ^ 8 % 2 ^ 8 in
    let tail : List ℕ = wide_bytes us ++ post in
    let shift : (pre ++ lo ∷ []) ++ hi ∷ tail ≡ pre ++ lo ∷ hi ∷ tail =
      append_assoc pre (lo ∷ []) (hi ∷ tail) in
    let shift2 : (pre ++ lo ∷ hi ∷ []) ++ tail ≡ pre ++ lo ∷ hi ∷ tail =
      append_assoc pre (lo ∷ hi ∷ []) tail in
    let first : byte_at (pre ++ lo ∷ hi ∷ tail) i ≡ lo = byte_at-length pre lo (hi ∷ tail) i e in
    let second : byte_at (pre ++ lo ∷ hi ∷ tail) (i + 1) ≡ hi =
      ap (λ l. byte_at l (i + 1)) (sym shift)
      ∙ byte_at-length (pre ++ lo ∷ []) hi tail (i + 1)
          (omega (arith, e, length-append pre (lo ∷ []))) in
    let rest : wides_at (pre ++ lo ∷ hi ∷ tail) (i + 2) (length us) ≡ us =
      ap (λ l. wides_at l (i + 2) (length us)) (sym shift2)
      ∙ wides_at-wide_bytes (pre ++ lo ∷ hi ∷ []) us post (i + 2)
          (omega (arith, e, length-append pre (lo ∷ hi ∷ []))) w in
    let whole : lo + hi * 2 ^ 8 ≡ u = omega arith in rw (first, second, rest, whole) refl

pub length-wide_bytes : (us : List ℕ) → length (wide_bytes us) ≡ 2 * length us
unfolding wide_bytes
length-wide_bytes [] = omega arith
length-wide_bytes (u ∷ us) = omega (arith, length-wide_bytes us)

pub length-take : (n : ℕ) (us : List ℕ) → n ≤ length us → length (take n us) ≡ n
length-take zero us h = refl
length-take (suc n) [] h = absurd (omega arith)
length-take (suc n) (u ∷ us) h = ap suc (length-take n us (omega arith))

pub length-drop : (n : ℕ) (us : List ℕ) → length (drop n us) ≡ length us - n
length-drop zero us = omega arith
length-drop (suc n) [] = omega arith
length-drop (suc n) (u ∷ us) = omega (arith, length-drop n us)

AllWide-take : (n : ℕ) (us : List ℕ) → AllWide us → AllWide (take n us)
unfolding AllWide
AllWide-take zero us w = tt
AllWide-take (suc n) [] w = tt
AllWide-take (suc n) (u ∷ us) (here, w) = (here, AllWide-take n us w)

AllWide-drop : (n : ℕ) (us : List ℕ) → AllWide us → AllWide (drop n us)
unfolding AllWide
AllWide-drop zero us w = w
AllWide-drop (suc n) [] w = tt
AllWide-drop (suc n) (u ∷ us) (here, w) = AllWide-drop n us w

-- The three parts of a long entry, read.
pub record Parts (de us : List ℕ) : Type 0 where
  pub kind : attr de ≡ attr_long_name
  pub name1 : wides_at de 1 5 ≡ take 5 us
  pub name2 : wides_at de 14 6 ≡ take 6 (drop 5 us)
  pub name3 : wides_at de 28 2 ≡ drop 11 us

pub lne_bytes-Parts :
    (o checksum : ℕ) (us : List ℕ)
    → length us ≡ 13
    → AllWide us
    → Parts (lne_bytes o checksum us) us
unfolding lne_bytes
lne_bytes-Parts o checksum us e w =
    let us1 : List ℕ = take 5 us in
    let us2 : List ℕ = take 6 (drop 5 us) in
    let us3 : List ℕ = drop 11 us in
    let len1 : length us1 ≡ 5 = length-take 5 us (omega arith) in
    let len2 : length us2 ≡ 6 = length-take 6 (drop 5 us) (omega (arith, length-drop 5 us)) in
    let len3 : length us3 ≡ 2 = omega (arith, length-drop 11 us) in
    let end : List ℕ = 0 ∷ 0 ∷ wide_bytes us3 in
    let middle : List ℕ = attr_long_name ∷ 0 ∷ checksum ∷ (wide_bytes us2 ++ end) in
    let pre1 : List ℕ = o ∷ wide_bytes us1 in
    let pre2 : List ℕ = pre1 ++ attr_long_name ∷ 0 ∷ checksum ∷ [] in
    let zeros : List ℕ = 0 ∷ 0 ∷ [] in
    let pre3 : List ℕ = pre2 ++ (wide_bytes us2 ++ zeros) in
    let whole2 : pre2 ++ (wide_bytes us2 ++ end) ≡ pre1 ++ middle =
      append_assoc pre1 (attr_long_name ∷ 0 ∷ checksum ∷ []) (wide_bytes us2 ++ end) in
    let lpre1 : length pre1 ≡ 11 = omega (arith, length-wide_bytes us1, len1) in
    let lpre2 : length pre2 ≡ 14 =
      omega (arith, lpre1, length-append pre1 (attr_long_name ∷ 0 ∷ checksum ∷ [])) in
    let lpre3 : length pre3 ≡ 28 = omega (
      arith,
      lpre2,
      length-append pre2 (wide_bytes us2 ++ zeros),
      length-append (wide_bytes us2) zeros,
      length-wide_bytes us2,
      len2,
    ) in
    let whole3 : pre3 ++ (wide_bytes us3 ++ []) ≡ pre1 ++ middle =
      append_assoc pre2 (wide_bytes us2 ++ zeros) (wide_bytes us3 ++ [])
      ∙ (ap (◌++◌ pre2) (
            append_assoc (wide_bytes us2) zeros (wide_bytes us3 ++ [])
            ∙ ap (λ l. wide_bytes us2 ++ (0 ∷ 0 ∷ l)) (append-nil (wide_bytes us3)))
          ∙ whole2) in
    record {
      kind =
          byte_at-length pre1 attr_long_name (0 ∷ checksum ∷ (wide_bytes us2 ++ end)) 11
            (sym lpre1);
      name1 =
          ap (wides_at (pre1 ++ middle) 1) (sym len1)
          ∙ wides_at-wide_bytes (o ∷ []) us1 middle 1 refl (AllWide-take 5 us w);
      name2 =
          ap (λ l. wides_at l 14 6) (sym whole2)
          ∙ (ap (wides_at (pre2 ++ (wide_bytes us2 ++ end)) 14) (sym len2)
              ∙ wides_at-wide_bytes pre2 us2 end 14 (sym lpre2)
                  (AllWide-take 6 (drop 5 us) (AllWide-drop 5 us w)));
      name3 =
          ap (λ l. wides_at l 28 2) (sym whole3)
          ∙ (ap (wides_at (pre3 ++ (wide_bytes us3 ++ [])) 28) (sym len3)
              ∙ wides_at-wide_bytes pre3 us3 [] 28 (sym lpre3) (AllWide-drop 11 us w));
    }
