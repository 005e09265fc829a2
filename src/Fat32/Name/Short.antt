-- ===== src/Fat32/Name/Short.antt =====
-- generate_shortname gives the eleven bytes of a short name.
use k210_os.Prelude.{
  ℕ, zero, suc, ◌+◌, ◌-◌, ◌<◌, ◌≤◌, ◌≡◌, inl, inr, refl, Bool, true, false, not, ◌&&◌, Option, none,
  some, List, [], ◌∷◌, ◌++◌, arith, ltb, leb, ◌==◌, Bool-cases, length, get_elem?, get_or,
  replicate, length-append, length-replicate, Outcome, Yields, Yields->>=,
}
use mathlib.Core.Path.{subst}
use k210_os.Fat32.Name.{
  shorten_char, has_char, illegal_short, last_dot, short_char, is_some, shorten, char_short_name,
  generate_shortname,
}

-- A byte that may stand in a short name: no lower case letter, and none of + , ; = [ ].
unfoldable pub is_short : ℕ → Bool
is_short c = not (leb 97 c && leb c 122) && not (has_char illegal_short c)

unfoldable pub all_short : List ℕ → Bool
all_short [] = true
all_short (c ∷ s) = is_short c && all_short s

short_char-is_short : (c : ℕ) → is_short (short_char c) ≡ true
unfolding is_short short_char has_char
short_char-is_short c = ground arith

all_short-append :
    (xs ys : List ℕ) → all_short xs ≡ true → all_short ys ≡ true → all_short (xs ++ ys) ≡ true
unfolding all_short
all_short-append [] ys h k = k
all_short-append (x ∷ xs) ys h k = ground (arith, all_short-append xs ys)

all_short-blanks : (n : ℕ) → all_short (replicate n 32) ≡ true
unfolding all_short is_short has_char
all_short-blanks zero = refl
all_short-blanks (suc n) = all_short-blanks n

last_dot_ge : (at : ℕ) (s : List ℕ) (found : ℕ) → found ≤ at → found ≤ last_dot at s found
unfolding last_dot
last_dot_ge at [] found le = omega arith
last_dot_ge at (c ∷ s) found le =
    ground (arith, last_dot_ge (at + 1) s at, last_dot_ge (at + 1) s found)

-- No '.' stands behind the last one.
last_dot-none :
    (at : ℕ) (s : List ℕ) (found j : ℕ)
    → found ≤ at
    → last_dot at s found < at + j
    → (get_or s j 0 == 46) ≡ false
unfolding last_dot
last_dot-none at [] found j le lt = refl
last_dot-none at (c ∷ s) found zero le lt = ground (arith, last_dot_ge (at + 1) s at)
last_dot-none at (c ∷ s) found (suc j) le lt =
    ground (arith, last_dot-none (at + 1) s at j, last_dot-none (at + 1) s found j)

-- Where the loop is: `p` is the last '.' and eight bytes at most are written, or no '.' is left.
data At (name : List ℕ) (at : ℕ) (out : List ℕ) : Option ℕ → Type 0 where
  in_base : length out ≤ 8 → At name at out (some (last_dot 0 name 0))
  in_extension :
      length out ≤ 11 → ((j : ℕ) → at ≤ j → (get_or name j 0 == 46) ≡ false) → At name at out none

get_elem?-some :
    (xs : List ℕ) (i c : ℕ) → get_elem? xs i ≡ some c → (get_or xs i 0 ≡ c) × (i < length xs)
get_elem?-some [] i c e = cc
get_elem?-some (x ∷ xs) zero c e = (ground (arith, e), omega arith)
get_elem?-some (x ∷ xs) (suc i) c e =
    let (same, lt) = get_elem?-some xs i c e in (same, omega arith)

abbrev Shortened : List ℕ → Type 0
Shortened out = (length out ≤ 11) × (all_short out ≡ true)

At-length :
    (name : List ℕ) (at : ℕ) (out : List ℕ) (p : Option ℕ) → At name at out p → length out ≤ 11
At-length name at out p (in_base le) = omega arith
At-length name at out p (in_extension le none_left) = le

last_dot_lt :
    (at : ℕ) (s : List ℕ) (found : ℕ) → found < at + length s → last_dot at s found < at + length s
unfolding last_dot
last_dot_lt at [] found lt = lt
last_dot_lt at (c ∷ s) found lt =
    ground (arith, last_dot_lt (at + 1) s at, last_dot_lt (at + 1) s found, last_one)
  where
    last_one : (found' : ℕ) → length s ≡ 0 → last_dot (at + 1) s found' ≡ found'
    last_one found' e = from s e
      where
        from : (l : List ℕ) → length l ≡ 0 → last_dot (at + 1) l found' ≡ found'
        from [] e' = refl
        from (y ∷ l) e' = absurd (omega (arith, e'))

put_short :
    (out : List ℕ) (c : ℕ) → all_short out ≡ true → all_short (out ++ short_char c ∷ []) ≡ true
unfolding all_short
put_short out c all =
    all_short-append out (short_char c ∷ []) all (ground (arith, short_char-is_short c))

module _ (name : List ℕ) (at c : ℕ) (again : ℕ → Option ℕ → List ℕ → Outcome (List ℕ))
    (next : (at' : ℕ) (p' : Option ℕ) (out' : List ℕ)
      → At name at' out' p'
      → all_short out' ≡ true
      → at < at'
      → at' ≤ length name
      → Yields Shortened (again at' p' out'))
    (here : get_or name at 0 ≡ c) (within : at < length name) where
  in_extension-Shortened :
      (out : List ℕ)
      → length out ≤ 10
      → ((j : ℕ) → at ≤ j → (get_or name j 0 == 46) ≡ false)
      → all_short out ≡ true
      → Yields Shortened (shorten_char again c at none out)
  unfolding shorten_char
  in_extension-Shortened out le none_left all =
      let no_dot : (c == 46) ≡ false = ground (arith, none_left at, here) in
      let later : (j : ℕ) → at + 1 ≤ j → (get_or name j 0 == 46) ≡ false =
        λ j lt. none_left j (omega arith) in
      let no_jump : (length out == 8 && is_some none) ≡ false = ground arith in
      elim (Bool-cases (c == 32)) [
        | inl e ↦
            rw (no_jump, e)
              (next (at + 1) none out (in_extension (omega arith) later) all (omega arith)
                (omega arith))
        | inr e ↦
            rw (no_jump, e, no_dot)
              (next (at + 1) none (out ++ short_char c ∷ [])
                (in_extension (omega (arith, length-append out (short_char c ∷ []))) later)
                (put_short out c all) (omega arith) (omega arith))
      ]

  base :
      (q : ℕ)
      → last_dot 0 name 0 ≡ q
      → (out : List ℕ) → length out ≤ 8
      → At name (at + 1) out (some q)
  base q eq out le = subst (λ x. At name (at + 1) out (some x)) eq (in_base le)

  in_base-Shortened :
      (out : List ℕ)
      → length out ≤ 8
      → all_short out ≡ true
      → Yields Shortened (shorten_char again c at (some (last_dot 0 name 0)) out)
  unfolding shorten_char
  in_base-Shortened out le all =
      let q : ℕ = last_dot 0 name 0 in
      let start : q < 0 + length name = last_dot_lt 0 name 0 (omega arith) in
      from q refl (omega (arith, start))
        (λ j lt. last_dot-none 0 name 0 j (omega arith) (omega arith)) (length out == 8)
        (ltb (q + 1) (at + 1)) (c == 32) (c == 46) (ltb q (at + 1)) refl refl refl refl refl
    where
      from :
          (q : ℕ)
          → last_dot 0 name 0 ≡ q
          → q < length name
          → ((j : ℕ) → q + 1 ≤ j → (get_or name j 0 == 46) ≡ false)
          → (full past blank dot dotted : Bool) → (length out == 8) ≡ full
          → ltb (q + 1) (at + 1) ≡ past
          → (c == 32) ≡ blank
          → (c == 46) ≡ dot
          → ltb q (at + 1) ≡ dotted
          → Yields Shortened (shorten_char again c at (some q) out)
      from q eq in_name behind true true b d h e1 e2 e3 e4 e5 = rw (e1, e2) (omega arith, all)
      from q eq in_name behind true false b d h e1 e2 e3 e4 e5 =
          rw (e1, e2)
            (next (q + 1) none out (in_extension (omega arith) behind) all (ground arith)
              (omega arith))
      from q eq in_name behind false p true d h e1 e2 e3 e4 e5 =
          rw (e1, e3)
            (next (at + 1) (some q) out (base q eq out le) all (omega arith) (omega arith))
      from q eq in_name behind false p false false h e1 e2 e3 e4 e5 =
          let short : length (out ++ short_char c ∷ []) ≤ 8 =
            ground (arith, length-append out (short_char c ∷ [])) in
          rw (e1, e3, e4)
            (next (at + 1) (some q) (out ++ short_char c ∷ [])
              (base q eq (out ++ short_char c ∷ []) short) (put_short out c all) (omega arith)
              (omega arith))
      from q eq in_name behind false p false true true e1 e2 e3 e4 e5 =
          let small : ltb 8 (length out) ≡ false = ground arith in
          let filled : length (out ++ replicate (8 - length out) 32) ≤ 11 = omega (
            arith,
            length-append out (replicate (8 - length out) 32),
            length-replicate {A = ℕ} (8 - length out) 32,
          ) in
          rw (e1, e3, e4, e5, small)
            (next (at + 1) none (out ++ replicate (8 - length out) 32)
              (in_extension filled (λ j lt. behind j (ground arith)))
              (all_short-append out (replicate (8 - length out) 32) all
                (all_short-blanks (8 - length out)))
              (omega arith) (omega arith))
      from q eq in_name behind false p false true false e1 e2 e3 e4 e5 =
          rw (e1, e3, e4, e5)
            (next (at + 1) (some q) out (base q eq out le) all (omega arith) (omega arith))

  shorten_char-Shortened :
      (out : List ℕ) (p : Option ℕ)
      → length out ≤ 10
      → At name at out p
      → all_short out ≡ true
      → Yields Shortened (shorten_char again c at p out)
  shorten_char-Shortened out _ short (in_base eight) all = in_base-Shortened out eight all
  shorten_char-Shortened out _ short (in_extension le none_left) all =
      in_extension-Shortened out short none_left all

shorten-Shortened :
    (fuel : ℕ) (name : List ℕ) (at : ℕ) (p : Option ℕ) (out : List ℕ)
    → At name at out p
    → all_short out ≡ true
    → at ≤ length name
    → length name < fuel + at
    → Yields Shortened (shorten fuel name at p out)
unfolding shorten
shorten-Shortened zero name at p out a all le f = absurd (omega arith)
shorten-Shortened (suc fuel) name at p out a all le f =
    from
      (λ at' p' out' a' all' lt le'.
        shorten-Shortened fuel name at' p' out' a' all' le' (omega arith))
      (get_elem? name at) (leb char_short_name (length out)) refl refl
  where
    from :
        ((at' : ℕ) (p' : Option ℕ) (out' : List ℕ)
          → At name at' out' p'
          → all_short out' ≡ true
          → at < at'
          → at' ≤ length name
          → Yields Shortened (shorten fuel name at' p' out'))
        → (r : Option ℕ) (full : Bool) → get_elem? name at ≡ r
        → leb char_short_name (length out) ≡ full
        → Yields Shortened (shorten (suc fuel) name at p out)
    from next r true e e' = rw e' (At-length name at out p a, all)
    from next none false e e' = rw (e', e) (At-length name at out p a, all)
    from next (some c) false e e' =
        let (here, lt) = get_elem?-some name at c e in
        rw (e', e)
          (shorten_char-Shortened name at c (shorten fuel name) next here lt out p (ground arith) a
            all)

-- A short name is eleven bytes long, none of them a lower case letter or one of + , ; = [ ], and is
-- made without a memset of a negative length.
pub generate_shortname-Short :
    (name : List ℕ)
    → Yields
        (λ short. (length short ≡ char_short_name) × (all_short short ≡ true))
        (generate_shortname name)
unfolding generate_shortname all_short
generate_shortname-Short name =
    Yields->>= Shortened _ (shorten (length name + 2) name 0 (some (last_dot 0 name 0)) []) _
      (shorten-Shortened (length name + 2) name 0 (some (last_dot 0 name 0)) []
        (in_base (omega arith)) refl (omega arith) (omega arith))
      λ out s. (
        omega (
          arith,
          s.0,
          length-append out (replicate (char_short_name - length out) 32),
          length-replicate {A = ℕ} (char_short_name - length out) 32,
        ),
        all_short-append out (replicate (char_short_name - length out) 32) s.1
            (all_short-blanks (char_short_name - length out)),
      )
