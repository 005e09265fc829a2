-- ===== src/Console/Printing/Ends.antt =====
-- Printing ends: no format is longer than the rounds of vprintk_loop.
use k210_os.Prelude.{
  ℕ, zero, suc, ◌+◌, ◌-◌, ◌*◌, ◌/◌, ◌%◌, ◌^◌, ◌<◌, ◌≤◌, ◌≡◌, inl, inr, refl, Bool, true, false,
  ◌&&◌, ◌||◌, Option, none, some, List, [], ◌∷◌, ◌++◌, arith, ltb, leb, ◌==◌, if◌then◌else◌, ltb→lt,
  Bool-cases, length, get_elem?, set, drop, Outcome, ok, panic, fault, hang, ◌>>=◌, from_option,
  load, store,
}
use k210_os.Console.{cons_putc, cons_puts, cons_puts_n}
use k210_os.Console.Printing.{
  digits, put_digits, put_sign, printint, ptr_digits, printptr, Arg, int_arg, ptr_arg, str_arg,
  plain_run, percents, null_string, print_arg, print_ptr, print_str, with_arg, convert,
  vprintk_loop, vprintk,
}

-- The run is no loop that does not end.
abbrev pub Ends {ℓ} : {A : Type ℓ} → Outcome A → Type 0
Ends hang = ⊥
Ends _ = Unit

module _ {ℓ} {A : Type ℓ} where
  Ends->>= {κ} :
      {B : Type κ} (m : Outcome A) (f : A → Outcome B)
      → Ends m
      → ((a : A) → Ends (f a))
      → Ends (m >>= f)
  Ends->>= (ok a) f e k = k a
  Ends->>= panic f e k = tt
  Ends->>= fault f e k = tt
  Ends->>= hang f e k = absurd e

  Ends-if : (b : Bool) (x y : Outcome A) → Ends x → Ends y → Ends (if b then x else y)
  Ends-if true x y e e' = e
  Ends-if false x y e e' = e'

  Ends-from_option : (x : Option A) → Ends (from_option x)
  Ends-from_option none = tt
  Ends-from_option (some a) = tt

  Ends-load : (xs : List A) (i : ℕ) → Ends (load xs i)
  unfolding load
  Ends-load xs i = Ends-from_option (get_elem? xs i)

Ends-store {ℓ} : {A : Type ℓ} (xs : List A) (i : ℕ) (v : A) → Ends (store xs i v)
unfolding store
Ends-store xs i v = Ends-if (ltb i (length xs)) (ok (set xs i v)) fault tt tt

Ends-cons_puts : (s : List ℕ) → Ends (cons_puts s)
unfolding cons_puts
Ends-cons_puts [] = tt
Ends-cons_puts (c ∷ s) =
    Ends-if (c == 0) (ok []) (cons_puts s >>= λ out. ok (cons_putc c ++ out)) tt
      (Ends->>= (cons_puts s) (λ out. ok (cons_putc c ++ out)) (Ends-cons_puts s) (λ out. tt))

Ends-cons_puts_n : (n : ℕ) (s : List ℕ) → Ends (cons_puts_n n s)
unfolding cons_puts_n
Ends-cons_puts_n n [] = tt
Ends-cons_puts_n zero (c ∷ s) = tt
Ends-cons_puts_n (suc n) (c ∷ s) =
    Ends-if (c == 0) (ok []) (cons_puts_n n s >>= λ out. ok (cons_putc c ++ out)) tt (
      Ends->>= (cons_puts_n n s) (λ out. ok (cons_putc c ++ out)) (Ends-cons_puts_n n s)
        (λ out. tt))

Ends-put_digits : (base x k : ℕ) (buf : List ℕ) → Ends (put_digits base x k buf)
unfolding put_digits
Ends-put_digits base x zero buf = tt
Ends-put_digits base x (suc k) buf =
    Ends->>= (load digits (x % base))
      (λ c. store buf k c >>= λ buf'.
        if x / base == 0 then ok (k, buf') else put_digits base (x / base) k buf')
      (Ends-load digits (x % base))
      (λ c.
        Ends->>= (store buf k c)
          (λ buf'. if x / base == 0 then ok (k, buf') else put_digits base (x / base) k buf')
          (Ends-store buf k c)
          (λ buf'.
            Ends-if (x / base == 0) (ok (k, buf')) (put_digits base (x / base) k buf') tt
              (Ends-put_digits base (x / base) k buf')))

Ends-put_sign : (k : ℕ) (buf : List ℕ) → Ends (put_sign k buf)
unfolding put_sign
Ends-put_sign zero buf = tt
Ends-put_sign (suc k) buf =
    Ends->>= (store buf k 45) (λ buf'. ok (k, buf')) (Ends-store buf k 45) (λ buf'. tt)

Ends-printint : (buf : List ℕ) (xx base : ℕ) (sign : Bool) → Ends (printint buf xx base sign)
unfolding printint
Ends-printint buf xx base sign =
    let negative : Bool = sign && leb (2 ^ 31) xx in
    let x : ℕ = if negative then (2 ^ 32 - xx) % 2 ^ 32 else xx in
    let shown : ℕ × List ℕ → Outcome (List ℕ) =
      λ r. (if negative then put_sign r.0 r.1 else ok r) >>= λ s. cons_puts (drop s.0 s.1) in
    Ends->>= (store buf 16 0) (λ buf'. put_digits base x 16 buf' >>= shown) (Ends-store buf 16 0)
      (λ buf'. Ends->>= (put_digits base x 16 buf') shown (Ends-put_digits base x 16 buf') (λ r.
        Ends->>= (if negative then put_sign r.0 r.1 else ok r) (λ s. cons_puts (drop s.0 s.1))
          (Ends-if negative (put_sign r.0 r.1) (ok r) (Ends-put_sign r.0 r.1) tt)
          (λ s. Ends-cons_puts (drop s.0 s.1))))

Ends-ptr_digits : (j x : ℕ) → Ends (ptr_digits j x)
unfolding ptr_digits
Ends-ptr_digits zero x = tt
Ends-ptr_digits (suc j) x =
    Ends->>= (load digits (x / 2 ^ 60)) (λ c. ptr_digits j (x * 16 % 2 ^ 64) >>= λ cs. ok (c ∷ cs))
      (Ends-load digits (x / 2 ^ 60))
      (λ c.
        Ends->>= (ptr_digits j (x * 16 % 2 ^ 64)) (λ cs. ok (c ∷ cs))
          (Ends-ptr_digits j (x * 16 % 2 ^ 64)) (λ cs. tt))

Ends-printptr : (x : ℕ) → Ends (printptr x)
unfolding printptr
Ends-printptr x =
    Ends->>= (ptr_digits 16 x) (λ cs. cons_puts (48 ∷ 120 ∷ cs ++ 0 ∷ [])) (Ends-ptr_digits 16 x)
      (λ cs. Ends-cons_puts (48 ∷ 120 ∷ cs ++ 0 ∷ []))

Ends-print_arg : (buf : List ℕ) (base : ℕ) (a : Arg) → Ends (print_arg buf base a)
Ends-print_arg buf base (int_arg xx) = Ends-printint buf xx base true
Ends-print_arg buf base (ptr_arg x) = tt
Ends-print_arg buf base (str_arg s) = tt

Ends-print_ptr : (a : Arg) → Ends (print_ptr a)
Ends-print_ptr (int_arg xx) = tt
Ends-print_ptr (ptr_arg x) = Ends-printptr x
Ends-print_ptr (str_arg s) = tt

Ends-print_str : (a : Arg) → Ends (print_str a)
Ends-print_str (int_arg xx) = tt
Ends-print_str (ptr_arg x) = tt
Ends-print_str (str_arg none) = Ends-cons_puts null_string
Ends-print_str (str_arg (some s)) = Ends-cons_puts s

Ends-with_arg :
    (print : Arg → Outcome (List ℕ)) (args : List Arg)
    → ((a : Arg) → Ends (print a))
    → Ends (with_arg print args)
Ends-with_arg print [] e = tt
Ends-with_arg print (a ∷ args) e = Ends->>= (print a) (λ out. ok (out, args)) (e a) (λ out. tt)

Ends-convert : (buf : List ℕ) (c : ℕ) (args : List Arg) → Ends (convert buf c args)
unfolding convert
Ends-convert buf c args = cases (c == 100) (c == 120) (c == 112) (c == 115)
  where
    cases :
        (d x p s : Bool)
        → Ends (
            if d
            then with_arg (print_arg buf 10) args
            else if x
            then with_arg (print_arg buf 16) args
            else if p
            then with_arg print_ptr args
            else if s
            then with_arg print_str args
            else ok (cons_putc 37 ++ cons_putc c, args))
    cases true x p s = Ends-with_arg (print_arg buf 10) args (Ends-print_arg buf 10)
    cases false true p s = Ends-with_arg (print_arg buf 16) args (Ends-print_arg buf 16)
    cases false false true s = Ends-with_arg print_ptr args Ends-print_ptr
    cases false false false true = Ends-with_arg print_str args Ends-print_str
    cases false false false false = tt

length-plain_run : (s : List ℕ) → length (plain_run s).1 + (plain_run s).0 ≡ length s
unfolding plain_run
length-plain_run [] = refl
length-plain_run (c ∷ s) = cases (c == 0 || c == 37) (length-plain_run s)
  where
    cases :
        (stops : Bool)
        → length (plain_run s).1 + (plain_run s).0 ≡ length s
        → (let r : ℕ × List ℕ =
              if stops then (0, c ∷ s) else ((plain_run s).0 + 1, (plain_run s).1) in
            length r.1 + r.0 ≡ suc (length s))
    cases true e = omega arith
    cases false e = omega (arith, e)

length-percents : (s : List ℕ) → length (percents s).1 + (percents s).0 ≤ length s
unfolding percents
length-percents [] = omega arith
length-percents (c ∷ []) = omega arith
length-percents (c ∷ d ∷ s) = cases (c == 37 && d == 37) (length-percents s)
  where
    cases :
        (both : Bool)
        → length (percents s).1 + (percents s).0 ≤ length s
        → (let r : ℕ × List ℕ =
              if both then ((percents s).0 + 1, (percents s).1) else (0, c ∷ d ∷ s) in
            length r.1 + r.0 ≤ suc (suc (length s)))
    cases true e = omega (arith, e)
    cases false e = omega arith

length-drop_two : (s : List ℕ) (n : ℕ) → length s ≤ suc n → length (drop 2 s) ≤ n
length-drop_two [] n h = omega arith
length-drop_two (c ∷ []) n h = omega arith
length-drop_two (c ∷ d ∷ s) n h = omega arith

Ends-vprintk_loop :
    (fuel : ℕ) (buf s : List ℕ) (args : List Arg)
    → length s < fuel
    → Ends (vprintk_loop fuel buf s args)
unfolding vprintk_loop
Ends-vprintk_loop zero buf s args h = absurd (omega arith)
Ends-vprintk_loop (suc fuel) buf [] args h = tt
Ends-vprintk_loop (suc fuel) buf (c ∷ s) args h =
    let text : ℕ × List ℕ = plain_run (c ∷ s) in
    let signs : ℕ × List ℕ = percents text.1 in
    let l : ℕ = text.0 + signs.0 in
    let less : length signs.1 + l ≤ suc (length s) =
      omega (arith, length-plain_run (c ∷ s), length-percents text.1) in
    let rest : List Arg → Outcome (List ℕ) =
      λ args'. vprintk_loop fuel buf (drop 2 signs.1) args' in
    let converted : ℕ → Outcome (List ℕ) =
      λ d. convert buf d args >>= λ r. rest r.1 >>= λ out. ok (r.0 ++ out) in
    let after_text : Outcome (List ℕ) = cons_puts_n l (c ∷ s) >>= λ out.
    vprintk_loop fuel buf signs.1 args >>= λ rest. ok (out ++ rest) in
    let after_sign : Outcome (List ℕ) =
      load signs.1 1 >>= λ d. if d == 0 then ok [] else converted d in
    let text_ends : 0 < l → Ends after_text = λ some_text.
      Ends->>= (cons_puts_n l (c ∷ s))
        (λ out. vprintk_loop fuel buf signs.1 args >>= λ rest. ok (out ++ rest))
        (Ends-cons_puts_n l (c ∷ s))
        (λ out.
          Ends->>= (vprintk_loop fuel buf signs.1 args) (λ rest. ok (out ++ rest))
            (Ends-vprintk_loop fuel buf signs.1 args (omega (arith, less, some_text)))
            (λ rest. tt)) in
    let sign_ends : Ends after_sign =
      Ends->>= (load signs.1 1) (λ d. if d == 0 then ok [] else converted d) (Ends-load signs.1 1)
        (λ d. Ends-if (d == 0) (ok []) (converted d) tt (
          Ends->>= (convert buf d args) (λ r. rest r.1 >>= λ out. ok (r.0 ++ out))
            (Ends-convert buf d args)
            (λ r.
              Ends->>= (rest r.1) (λ out. ok (r.0 ++ out))
                (Ends-vprintk_loop fuel buf (drop 2 signs.1) r.1
                  (omega (arith, length-drop_two signs.1 (length s) (omega (arith, less)))))
                (λ out. tt)))) in
    Ends-if (c == 0) (ok []) (if ltb 0 l then after_text else after_sign) tt
      (elim (Bool-cases (ltb 0 l)) [
        | inl some_text ↦ rw some_text (text_ends (ltb→lt 0 l some_text))
        | inr no_text ↦ rw no_text sign_ends
      ])

-- vprintk never runs out of rounds, for any format, with or without an end, any arguments, and
-- whatever the buffer of printint holds.
pub vprintk-Ends : (buf fmt : List ℕ) (args : List Arg) → Ends (vprintk buf fmt args)
unfolding vprintk
vprintk-Ends buf fmt args = Ends-vprintk_loop (length fmt + 1) buf fmt args (omega arith)
