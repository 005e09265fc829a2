-- ===== src/Console/Printing/Decimal.antt =====
-- Decimal numbers, printed and read back.
use k210_os.Prelude.{
  ℕ, zero, suc, ◌+◌, ◌-◌, ◌*◌, ◌/◌, ◌%◌, ◌^◌, ◌<◌, ◌≤◌, ◌≡◌, inl, inr, refl, sym, ap, ◌∙◌, true,
  false, List, [], ◌∷◌, ◌++◌, arith, ltb, leb, ◌==◌, Bool-cases, length, set, drop, length-set, ok,
  ◌>>=◌, load, store-ok, Yields, Yields->>=, Yields-map,
}
use mathlib.Core.List.{append_assoc}
use native.Mathlib.Nat.{pow-suc}
use k210_os.Strings.{isspace, isdigit, atoi, atoi_digits, negated}
use k210_os.Console.{cons_putc, cons_puts}
use k210_os.Console.Printing.{digits, put_digits, put_sign, printint}

drop-set : (xs : List ℕ) (i v : ℕ) → i < length xs → drop i (set xs i v) ≡ v ∷ drop (suc i) xs
drop-set [] i v h = absurd (omega arith)
drop-set (x ∷ xs) zero v h = refl
drop-set (x ∷ xs) (suc i) v h = drop-set xs i v (omega arith)

decimal_digit : (d : ℕ) → d < 10 → load digits d ≡ ok (48 + d)
unfolding load
decimal_digit zero h = refl
decimal_digit (suc zero) h = refl
decimal_digit (suc (suc zero)) h = refl
decimal_digit (suc (suc (suc zero))) h = refl
decimal_digit (suc (suc (suc (suc zero)))) h = refl
decimal_digit (suc (suc (suc (suc (suc zero))))) h = refl
decimal_digit (suc (suc (suc (suc (suc (suc zero)))))) h = refl
decimal_digit (suc (suc (suc (suc (suc (suc (suc zero))))))) h = refl
decimal_digit (suc (suc (suc (suc (suc (suc (suc (suc zero)))))))) h = refl
decimal_digit (suc (suc (suc (suc (suc (suc (suc (suc (suc zero))))))))) h = refl
decimal_digit (suc (suc (suc (suc (suc (suc (suc (suc (suc (suc d)))))))))) h = absurd (omega arith)

-- One more digit behind those of a tenth.
atoi_digits-digit :
    (x : ℕ) (s : List ℕ)
    → x < 2 ^ 32
    → atoi_digits (negated (x / 10)) ((48 + x % 10) ∷ s) ≡ atoi_digits (negated x) s
unfolding atoi_digits isdigit
atoi_digits-digit x s h =
    let digit : ltb ((48 + x % 10 + 2 ^ 32 - 48) % 2 ^ 32) 10 ≡ true = ground arith in
    let next : (10 * negated (x / 10) + 2 ^ 32 - (48 + x % 10 - 48)) % 2 ^ 32 ≡ negated x =
      omega arith in
    rw (digit, next) refl

cons_puts-digit :
    (d : ℕ) (s out : List ℕ)
    → d < 10
    → cons_puts s ≡ ok out
    → cons_puts ((48 + d) ∷ s) ≡ ok ((48 + d) ∷ out)
unfolding cons_puts cons_putc
cons_puts-digit d s out h e =
    let shown : (48 + d == 0) ≡ false = ground arith in
    let plain : (48 + d == 0x100) ≡ false = ground arith in rw (shown, plain, e) refl

-- What the loop of printint comes to for `x` in the `k` characters before the index `k` of the
-- buffer: digits that read as `x`, in front of what stood there.
record Written (j x k : ℕ) (buf : List ℕ) (r : ℕ × List ℕ) : Type 0 where
  lead : ℕ
  tail : List ℕ
  small : lead < 10
  split : drop r.0 r.1 ≡ ((48 + lead) ∷ tail) ++ drop k buf
  reads : (s : List ℕ) → atoi_digits 0 (((48 + lead) ∷ tail) ++ s) ≡ atoi_digits (negated x) s
  shows :
      (s out : List ℕ)
      → cons_puts s ≡ ok out
      → cons_puts (((48 + lead) ∷ tail) ++ s) ≡ ok (((48 + lead) ∷ tail) ++ out)
  start : k ≤ r.0 + j
  inside : r.0 < k
  same_length : length r.1 ≡ length buf

last_digit :
    (j x k : ℕ) (buf : List ℕ)
    → x < 10
    → 0 < j
    → k < length buf
    → Written j x (suc k) buf (k, set buf k (48 + x % 10))
last_digit j x k buf small pos fits = record {
  lead = x % 10;
  tail = [];
  small = omega arith;
  split = drop-set buf k (48 + x % 10) fits;
  reads = λ s.
      ap (λ n. atoi_digits n ((48 + x % 10) ∷ s)) (omega arith)
      ∙ atoi_digits-digit x s (omega arith);
  shows = λ s out e. cons_puts-digit (x % 10) s out (omega arith) e;
  start = omega arith;
  inside = omega arith;
  same_length = length-set buf k (48 + x % 10);
}

another_digit :
    (j x k : ℕ) (buf : List ℕ) (r : ℕ × List ℕ)
    → x < 2 ^ 32
    → k < length buf
    → Written j (x / 10) k (set buf k (48 + x % 10)) r
    → Written (suc j) x (suc k) buf r
another_digit j x k buf r w fits t =
    let d : List ℕ = (48 + x % 10) ∷ [] in
    let ds : List ℕ = (48 + t.lead) ∷ t.tail in
    let joined : (s : List ℕ) → (ds ++ d) ++ s ≡ ds ++ ((48 + x % 10) ∷ s) =
      λ s. append_assoc ds d s in
    record {
      lead = t.lead;
      tail = t.tail ++ d;
      small = t.small;
      split =
          t.split
          ∙ (ap (◌++◌ ds) (drop-set buf k (48 + x % 10) fits) ∙ sym (joined (drop (suc k) buf)));
      reads = λ s.
          ap (atoi_digits 0) (joined s) ∙ (t.reads ((48 + x % 10) ∷ s) ∙ atoi_digits-digit x s w);
      shows = λ s out e.
          ap cons_puts (joined s)
          ∙ (t.shows ((48 + x % 10) ∷ s) ((48 + x % 10) ∷ out)
                (cons_puts-digit (x % 10) s out (omega arith) e)
              ∙ ap ok (sym (joined out)));
      start = omega (arith, t.start);
      inside = omega (arith, t.inside);
      same_length = t.same_length ∙ length-set buf k (48 + x % 10);
    }

some_power : (x j : ℕ) → x < 10 ^ suc j → (x / 10 == 0) ≡ false → 0 < j
some_power x zero h more = absurd (ground arith)
some_power x (suc j) h more = omega arith

put_digits-Written :
    (k j x : ℕ) (buf : List ℕ)
    → x < 10 ^ j
    → x < 2 ^ 32
    → 0 < j
    → j ≤ k
    → k ≤ length buf
    → Yields (Written j x k buf) (put_digits 10 x k buf)
unfolding put_digits
put_digits-Written zero j x buf h w pos le fits = absurd (omega arith)
put_digits-Written (suc k) zero x buf h w pos le fits = absurd (omega arith)
put_digits-Written (suc k) (suc j) x buf h w pos le fits =
    let power : x < 10 * 10 ^ j = omega (arith, pow-suc 10 j) in
    rw (decimal_digit (x % 10) (omega arith), store-ok buf k (48 + x % 10) (omega arith))
      (elim (Bool-cases (x / 10 == 0)) [
        | inl last ↦ rw last (last_digit (suc j) x k buf (ground arith) pos (omega arith))
        | inr more ↦ rw more (
            Yields-map (Written j (x / 10) k (set buf k (48 + x % 10)))
              (Written (suc j) x (suc k) buf) (put_digits 10 (x / 10) k (set buf k (48 + x % 10)))
              (λ r t. another_digit j x k buf r w (omega arith) t)
              (put_digits-Written k j (x / 10) (set buf k (48 + x % 10)) (omega arith) (omega arith)
                (some_power x j h more) (omega arith)
                (omega (arith, length-set buf k (48 + x % 10)))))
      ])

-- atoi on the digits and the end of the string behind them
digits_end :
    (j x k : ℕ) (buf : List ℕ) (r : ℕ × List ℕ) (t : Written j x k buf r)
    → atoi_digits 0 ((((48 + t.lead) ∷ t.tail) ++ []) ++ 0 ∷ []) ≡ ok (negated x)
unfolding atoi_digits isdigit
digits_end j x k buf r t =
    ap (atoi_digits 0) (append_assoc ((48 + t.lead) ∷ t.tail) [] (0 ∷ [])) ∙ t.reads (0 ∷ [])

reads_positive :
    (j x k : ℕ) (buf : List ℕ) (r : ℕ × List ℕ) (t : Written j x k buf r)
    → x < 2 ^ 32
    → atoi ((((48 + t.lead) ∷ t.tail) ++ []) ++ 0 ∷ []) ≡ ok x
unfolding atoi isspace
reads_positive j x k buf r t w =
    let blank : (48 + t.lead == 32) ≡ false = ground arith in
    let space : ltb ((48 + t.lead + 2 ^ 32 - 9) % 2 ^ 32) 5 ≡ false = ground (arith, t.small) in
    let minus : (48 + t.lead == 45) ≡ false = ground arith in
    let plus : (48 + t.lead == 43) ≡ false = ground arith in
    let twice : negated (negated x) ≡ x = omega arith in
    rw (blank, space, minus, plus, digits_end j x k buf r t) (ap ok twice)

reads_negative :
    (j x k : ℕ) (buf : List ℕ) (r : ℕ × List ℕ) (t : Written j x k buf r)
    → atoi (45 ∷ ((((48 + t.lead) ∷ t.tail) ++ []) ++ 0 ∷ [])) ≡ ok (negated x)
unfolding atoi isspace
reads_negative j x k buf r t = digits_end j x k buf r t

-- The end of the buffer of printint holds the end of the string.
ends : (buf : List ℕ) → 16 < length buf → cons_puts (drop 16 (set buf 16 0)) ≡ ok []
unfolding cons_puts
ends buf h = ap cons_puts (drop-set buf 16 0 h)

shown_digits :
    (j x : ℕ) (buf : List ℕ) (r : ℕ × List ℕ) (t : Written j x 16 (set buf 16 0) r)
    → 16 < length buf
    → cons_puts (drop r.0 r.1) ≡ ok (((48 + t.lead) ∷ t.tail) ++ [])
shown_digits j x buf r t h = ap cons_puts t.split ∙ t.shows (drop 16 (set buf 16 0)) [] (ends buf h)

shown_sign :
    (j x : ℕ) (buf : List ℕ) (r : ℕ × List ℕ) (t : Written j x 16 (set buf 16 0) r)
    → length buf ≡ 17
    → j ≤ 10
    → (put_sign r.0 r.1 >>= λ s. cons_puts (drop s.0 s.1))
      ≡ ok (45 ∷ (((48 + t.lead) ∷ t.tail) ++ []))
unfolding put_sign cons_puts cons_putc
shown_sign j x buf (zero, buf') t h le = absurd (omega (arith, t.start))
shown_sign j x buf (suc i, buf') t h le =
    let fits : i < length buf' = omega (arith, t.same_length, t.inside, length-set buf 16 0) in
    rw
      (
        store-ok buf' i 45 fits,
        drop-set buf' i 45 fits,
        shown_digits j x buf (suc i, buf') t (omega arith),
      )
      refl

-- Every `int` that printint prints in base 10 with its sign is read back by atoi from the
-- characters put out, the least one too, and printint stores nothing outside its buffer of 17
-- characters, whatever that holds.
pub printint-atoi :
    (buf : List ℕ) (xx : ℕ)
    → length buf ≡ 17
    → xx < 2 ^ 32
    → Yields (λ out. atoi (out ++ 0 ∷ []) ≡ ok xx) (printint buf xx 10 true)
unfolding printint
printint-atoi buf xx h w =
    rw (store-ok buf 16 0 (omega arith)) (elim (Bool-cases (leb (2 ^ 31) xx)) [
      | inr positive ↦ rw positive (
          Yields->>= (Written 10 xx 16 (set buf 16 0)) (λ out. atoi (out ++ 0 ∷ []) ≡ ok xx)
            (put_digits 10 xx 16 (set buf 16 0)) (λ r. cons_puts (drop r.0 r.1))
            (put_digits-Written 16 10 xx (set buf 16 0) (omega arith) w (omega arith) (omega arith)
              (omega (arith, length-set buf 16 0)))
            (λ r t.
              rw (shown_digits 10 xx buf r t (omega arith))
                (reads_positive 10 xx 16 (set buf 16 0) r t w)))
      | inl negative ↦ rw negative (
          let x : ℕ = negated xx in
          Yields->>= (Written 10 x 16 (set buf 16 0)) (λ out. atoi (out ++ 0 ∷ []) ≡ ok xx)
            (put_digits 10 x 16 (set buf 16 0))
            (λ r. put_sign r.0 r.1 >>= λ s. cons_puts (drop s.0 s.1))
            (put_digits-Written 16 10 x (set buf 16 0) (omega arith) (omega arith) (omega arith)
              (omega arith) (omega (arith, length-set buf 16 0)))
            (λ r t.
              rw (shown_sign 10 x buf r t h (omega arith))
                (reads_negative 10 x 16 (set buf 16 0) r t ∙ ap ok (omega arith))))
    ])
