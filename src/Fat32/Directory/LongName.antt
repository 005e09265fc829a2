-- ===== src/Fat32/Directory/LongName.antt =====
-- The name that emake spreads over long entries is the name that enext puts together.
use k210_os.Prelude.{
  ℕ, zero, suc, ◌+◌, ◌<◌, ◌≡◌, refl, Bool, true, false, List, arith, ◌==◌, length, take, drop,
}
use k210_os.Strings.{Bytes}
use k210_os.Fat32.Directory.{attr_long_name, attr, snstr, read_entry_name}
use k210_os.Fat32.Directory.Entries.{wide_chars, lne_bytes}
use k210_os.Fat32.Directory.Parts.{
  length-take, length-drop, length-wide_chars, AllWide, Parts, lne_bytes-Parts,
}
use k210_os.Fat32.Directory.Spelling.{
  Spelled, snstr-Spelled, snstr-elsewhere, take-wide_chars, drop-wide_chars, Spelled-append,
}

pub AllWide-wide_chars :
    (n : ℕ) (m : Bytes) (p : ℕ) (end : Bool)
    → ((j : ℕ) → m j < 256)
    → AllWide (wide_chars n m p end)
unfolding AllWide wide_chars
AllWide-wide_chars zero m p end bytes = tt
AllWide-wide_chars (suc n) m p true bytes = (omega arith, AllWide-wide_chars n m p true bytes)
AllWide-wide_chars (suc n) m p false bytes =
    (omega (arith, bytes p), AllWide-wide_chars n m (p + 1) (m p == 0) bytes)

-- One long entry, read.
pub read_entry_name-Spelled :
    (m : Bytes) (p o checksum : ℕ) (before : Bytes) (dst : ℕ)
    → ((j : ℕ) → m j < 256)
    → Spelled m p 13 before dst
        (read_entry_name before dst (lne_bytes o checksum (wide_chars 13 m p false)))
unfolding read_entry_name
read_entry_name-Spelled m p o checksum before dst bytes =
    let us : List ℕ = wide_chars 13 m p false in
    let len : length us ≡ 13 = length-wide_chars 13 m p false in
    let parts : Parts (lne_bytes o checksum us) us =
      lne_bytes-Parts o checksum us len (AllWide-wide_chars 13 m p false bytes) in
    let m1 : Bytes = snstr before dst (take 5 us) in
    let m2 : Bytes = snstr m1 (dst + 5) (take 6 (drop 5 us)) in
    let s1 : Spelled m p 5 before dst m1 =
      rw (take-wide_chars 5 8 m p 13 false refl) (snstr-Spelled 5 m p before dst bytes) in
    let len2 : length (take 6 (drop 5 us)) ≡ 6 =
      length-take 6 (drop 5 us) (omega (arith, length-drop 5 us, len)) in
    let len3 : length (drop 11 us) ≡ 2 = omega (arith, length-drop 11 us, len) in
    let s2 : Spelled m p 11 before dst m2 =
      Spelled-append 5 6 m p before m1 m2 dst s1
        (λ x h. snstr-elsewhere (take 6 (drop 5 us)) m1 (dst + 5) x (ground (arith, h, len2)))
        (λ go.
          rw (drop-wide_chars 5 8 m p 13 refl go, take-wide_chars 6 2 m (p + 5) 8 false refl)
            (snstr-Spelled 6 m (p + 5) m1 (dst + 5) bytes)) in
    let s3 : Spelled m p 13 before dst (snstr m2 (dst + 11) (drop 11 us)) =
      Spelled-append 11 2 m p before m2 (snstr m2 (dst + 11) (drop 11 us)) dst s2
        (λ x h. snstr-elsewhere (drop 11 us) m2 (dst + 11) x (ground (arith, h, len3)))
        (λ go.
          rw (drop-wide_chars 11 2 m p 13 refl go)
            (snstr-Spelled 2 m (p + 11) m2 (dst + 11) bytes)) in
    let kind : (attr (lne_bytes o checksum us) == attr_long_name) ≡ true = rw parts.kind refl in
    rw (kind, parts.name1, parts.name2, parts.name3) s3
