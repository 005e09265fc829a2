-- ===== src/Fat32/Name/Path.antt =====
-- skipelem splits a path at its slashes.
use k210_os.Prelude.{
  ℕ, zero, suc, ◌≡◌, ◌≢◌, refl, ◌∙◌, false, some, List, [], ◌∷◌, ◌++◌, arith, ◌==◌, replicate, take,
}
use k210_os.Fat32.Name.{split_elem, has_char, max_filename, skip_slashes, up_to_slash, skipelem}

-- The rest of a path behind an element: nothing, or one slash at least and what does not begin with
-- one.
pub data Rest : List ℕ → List ℕ → Type 0 where
  over : Rest [] []
  more : (n c : ℕ) (s : List ℕ) → c ≢ 47 → Rest (47 ∷ replicate n 47 ++ c ∷ s) (c ∷ s)
  slashes_only : (n : ℕ) → Rest (47 ∷ replicate n 47) []

skip_slashes-replicate : (n : ℕ) (s : List ℕ) → skip_slashes (replicate n 47 ++ s) ≡ skip_slashes s
unfolding skip_slashes
skip_slashes-replicate zero s = refl
skip_slashes-replicate (suc n) s = skip_slashes-replicate n s

skip_slashes_only : (n : ℕ) → skip_slashes (replicate n 47) ≡ []
unfolding skip_slashes
skip_slashes_only zero = refl
skip_slashes_only (suc n) = skip_slashes_only n

skip_slashes-Rest : (tail rest : List ℕ) → Rest tail rest → skip_slashes tail ≡ rest
unfolding skip_slashes
skip_slashes-Rest tail rest over = refl
skip_slashes-Rest tail rest (more n c s ne) = skip_slashes-replicate n (c ∷ s) ∙ ground (arith, ne)
skip_slashes-Rest tail rest (slashes_only n) = skip_slashes_only n

up_to_slash-elem :
    (elem tail rest : List ℕ)
    → has_char elem 47 ≡ false
    → Rest tail rest
    → up_to_slash (elem ++ tail) ≡ (elem, tail)
unfolding up_to_slash has_char
up_to_slash-elem [] tail rest h over = refl
up_to_slash-elem [] tail rest h (more n c s ne) = refl
up_to_slash-elem [] tail rest h (slashes_only n) = refl
up_to_slash-elem (x ∷ elem) tail rest h r =
    let here : (x == 47) ≡ false = ground arith in
    let later : has_char elem 47 ≡ false = ground arith in
    rw (here, up_to_slash-elem elem tail rest later r) refl

-- On a path of some slashes, an element with no slash in it and a rest that is nothing or is parted
-- from the element by slashes, skipelem gives the first 255 bytes of the element and the rest.
pub skipelem-elem :
    (n x : ℕ) (elem tail rest : List ℕ)
    → has_char (x ∷ elem) 47 ≡ false
    → Rest tail rest
    → skipelem (replicate n 47 ++ (x ∷ (elem ++ tail))) ≡ some (take max_filename (x ∷ elem), rest)
unfolding skipelem split_elem skip_slashes has_char
skipelem-elem n x elem tail rest h r =
    let here : (x == 47) ≡ false = ground arith in
    let start : skip_slashes (replicate n 47 ++ (x ∷ (elem ++ tail))) ≡ x ∷ (elem ++ tail) =
      skip_slashes-replicate n (x ∷ (elem ++ tail)) ∙ ground (arith, here) in
    rw (start, up_to_slash-elem (x ∷ elem) tail rest h r, skip_slashes-Rest tail rest r) refl
