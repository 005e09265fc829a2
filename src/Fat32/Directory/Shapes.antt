-- ===== src/Fat32/Directory/Shapes.antt =====
-- The entries that emake makes, as lists of 32 bytes.
use k210_os.Prelude.{
  ℕ, zero, suc, ◌+◌, ◌-◌, ◌*◌, ◌/◌, ◌%◌, ◌^◌, ◌<◌, ◌≤◌, ◌≡◌, refl, ap, false, List, [], ◌∷◌, ◌++◌,
  arith, ◌==◌, if◌then◌else◌, length, take, drop, length-append,
}
use k210_os.Strings.{Bytes}
use k210_os.Fat32.Name.{cal_checksum, checksum_from, char_short_name}
use k210_os.Fat32.Directory.{attr_long_name}
use k210_os.Fat32.Directory.Entries.{
  wide_chars, wide_bytes, lne_bytes, long_entry, long_entries, sne_bytes,
}
use k210_os.Fat32.Directory.Parts.{length-wide_chars, length-wide_bytes, length-take, length-drop}
use k210_os.Fat32.Directory.Writing.{AllBytes, AreDentries}

checksum_from-lt : (sum : ℕ) (s : List ℕ) → sum < 256 → checksum_from sum s < 256
unfolding checksum_from
checksum_from-lt sum [] h = h
checksum_from-lt sum (c ∷ s) h =
    checksum_from-lt (((if sum % 2 == 1 then 0x80 else 0) + sum / 2 + c) % 2 ^ 8) s (omega arith)

pub cal_checksum-lt : (s : List ℕ) → cal_checksum s < 256
unfolding cal_checksum
cal_checksum-lt s = checksum_from-lt 0 (take char_short_name s) (omega arith)

AllBytes-append : (xs ys : List ℕ) → AllBytes xs → AllBytes ys → AllBytes (xs ++ ys)
AllBytes-append [] ys h k = k
AllBytes-append (x ∷ xs) ys h k = (h.0, AllBytes-append xs ys h.1 k)

AllBytes-take : (n : ℕ) (xs : List ℕ) → AllBytes xs → AllBytes (take n xs)
AllBytes-take zero xs h = tt
AllBytes-take (suc n) [] h = tt
AllBytes-take (suc n) (x ∷ xs) h = (h.0, AllBytes-take n xs h.1)

AllBytes-wide_bytes : (us : List ℕ) → AllBytes (wide_bytes us)
unfolding wide_bytes
AllBytes-wide_bytes [] = tt
AllBytes-wide_bytes (u ∷ us) = (omega arith, (omega arith, AllBytes-wide_bytes us))

-- A long entry is an entry.
lne_bytes-dentry :
    (o checksum : ℕ) (us : List ℕ)
    → o < 256
    → checksum < 256
    → length us ≡ 13
    → (length (lne_bytes o checksum us) ≡ 32) × AllBytes (lne_bytes o checksum us)
unfolding lne_bytes
lne_bytes-dentry o checksum us h h' len =
    let w1 : List ℕ = wide_bytes (take 5 us) in
    let w2 : List ℕ = wide_bytes (take 6 (drop 5 us)) in
    let w3 : List ℕ = wide_bytes (drop 11 us) in
    let n1 : length w1 ≡ 10 =
      omega (arith, length-wide_bytes (take 5 us), length-take 5 us (omega (arith, len))) in
    let n2 : length w2 ≡ 12 = omega (
      arith,
      length-wide_bytes (take 6 (drop 5 us)),
      length-take 6 (drop 5 us) (omega (arith, length-drop 5 us, len)),
    ) in
    let n3 : length w3 ≡ 4 =
      omega (arith, length-wide_bytes (drop 11 us), length-drop 11 us, len) in
    (
      omega (
        arith,
        n1,
        n2,
        n3,
        length-append w1 (attr_long_name ∷ 0 ∷ checksum ∷ (w2 ++ 0 ∷ 0 ∷ w3)),
        length-append w2 (0 ∷ 0 ∷ w3),
      ),
      (
        h,
        AllBytes-append w1 (attr_long_name ∷ 0 ∷ checksum ∷ (w2 ++ 0 ∷ 0 ∷ w3))
            (AllBytes-wide_bytes (take 5 us))
            (
              omega arith,
              (
                omega arith,
                (
                  h',
                  AllBytes-append w2 (0 ∷ 0 ∷ w3) (AllBytes-wide_bytes (take 6 (drop 5 us)))
                      (omega arith, (omega arith, AllBytes-wide_bytes (drop 11 us))),
                ),
              ),
            ),
      ),
    )

pub sne_bytes-dentry :
    (short : List ℕ) (a c n : ℕ)
    → length short ≡ 11
    → AllBytes short
    → (length (sne_bytes short a c n) ≡ 32) × AllBytes (sne_bytes short a c n)
unfolding sne_bytes
sne_bytes-dentry short a c n len h =
    let t : List ℕ = take 11 short in
    let w1 : List ℕ = wide_bytes (c / 2 ^ 16 % 2 ^ 16 ∷ 0 ∷ 0 ∷ c % 2 ^ 16 ∷ []) in
    let w2 : List ℕ = wide_bytes (n % 2 ^ 16 ∷ n / 2 ^ 16 % 2 ^ 16 ∷ []) in
    let zeros : List ℕ = 0 ∷ 0 ∷ 0 ∷ 0 ∷ 0 ∷ 0 ∷ 0 ∷ 0 ∷ (w1 ++ w2) in
    let n1 : length w1 ≡ 8 =
      omega (arith, length-wide_bytes (c / 2 ^ 16 % 2 ^ 16 ∷ 0 ∷ 0 ∷ c % 2 ^ 16 ∷ [])) in
    let n2 : length w2 ≡ 4 =
      omega (arith, length-wide_bytes (n % 2 ^ 16 ∷ n / 2 ^ 16 % 2 ^ 16 ∷ [])) in
    let tail : AllBytes (w1 ++ w2) =
      AllBytes-append w1 w2 (AllBytes-wide_bytes (c / 2 ^ 16 % 2 ^ 16 ∷ 0 ∷ 0 ∷ c % 2 ^ 16 ∷ []))
        (AllBytes-wide_bytes (n % 2 ^ 16 ∷ n / 2 ^ 16 % 2 ^ 16 ∷ [])) in
    (
      omega (
        arith,
        length-take 11 short (omega (arith, len)),
        length-append t (a % 2 ^ 8 ∷ zeros),
        length-append w1 w2,
        n1,
        n2,
      ),
      AllBytes-append t (a % 2 ^ 8 ∷ zeros) (AllBytes-take 11 short h) (
        omega arith,
        (
          omega arith,
          (
            omega arith,
            (
              omega arith,
              (omega arith, (omega arith, (omega arith, (omega arith, (omega arith, tail))))),
            ),
          ),
        ),
      ),
    )

pub AreDentries-append :
    (xs ys : List (List ℕ)) → AreDentries xs → AreDentries ys → AreDentries (xs ++ ys)
AreDentries-append [] ys h k = k
AreDentries-append (x ∷ xs) ys h k = (h.0, AreDentries-append xs ys h.1 k)

pub long_entries-AreDentries :
    (i entcnt : ℕ) (m : Bytes) (filename checksum : ℕ)
    → i ≤ 20
    → checksum < 256
    → AreDentries (long_entries i entcnt m filename checksum)
unfolding long_entries long_entry
long_entries-AreDentries zero entcnt m filename checksum le h = tt
long_entries-AreDentries (suc i) entcnt m filename checksum le h = (
  lne_bytes-dentry (if suc i == entcnt then suc i + 64 else suc i) checksum
      (wide_chars 13 m (filename + (suc i - 1) * 13) false) (ground arith) h
      (length-wide_chars 13 m (filename + (suc i - 1) * 13) false),
  long_entries-AreDentries i entcnt m filename checksum (omega arith) h,
)

pub length-long_entries :
    (i entcnt : ℕ) (m : Bytes) (filename checksum : ℕ)
    → length (long_entries i entcnt m filename checksum) ≡ i
unfolding long_entries
length-long_entries zero entcnt m filename checksum = refl
length-long_entries (suc i) entcnt m filename checksum =
    ap suc (length-long_entries i entcnt m filename checksum)
