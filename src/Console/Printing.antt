-- ===== src/Console/Printing.antt =====
-- src/stdio.c: printing to the console.
pub mod Decimal
pub mod Ends
use k210_os.Prelude.{
  ℕ, zero, suc, ◌+◌, ◌-◌, ◌*◌, ◌/◌, ◌%◌, ◌^◌, ◌<◌, ◌≤◌, ◌≡◌, ◌≢◌, ◌↔◌, ◌⊎◌, inl, inr, refl, sym, ap,
  ◌∙◌, min, max, Bool, true, false, not, ◌&&◌, ◌||◌, Option, none, some, List, [], ◌∷◌, ◌++◌, map,
  arith, ltb, leb, ◌==◌, if◌then◌else◌, lt→ltb, ltb→lt, ltb→le, leb→le, eq→==, ==→eq, Bool-cases,
  length, get_elem?, get_or, set, replicate, take, drop, length-append, length-set,
  length-replicate, get_elem?-eq-get_or, get_or-set, get_or-append, set-set, set-get_or, Outcome,
  ok, panic, fault, hang, ◌>>=◌, ◌>>◌, assert, from_option, load, store, load-ok, store-ok, Yields,
  Yields->>=, Yields-map, holds_below, holds_below→test,
}
use k210_os.Console.{cons_putc, cons_puts, cons_puts_n}

-- the characters of `digits`
abbrev pub digits : List ℕ
digits = 48 ∷ 49 ∷ 50 ∷ 51 ∷ 52 ∷ 53 ∷ 54 ∷ 55 ∷ 56 ∷ 57 ∷ 97 ∷ 98 ∷ 99 ∷ 100 ∷ 101 ∷ 102 ∷ []

-- The `do` loop of printint with `k` for `i + 1`: where the digits begin, and the buffer.
unfoldable pub put_digits : ℕ → ℕ → ℕ → List ℕ → Outcome (ℕ × List ℕ)
put_digits base x zero buf = fault
put_digits base x (suc k) buf = do
  c ← load digits (x % base)
  buf' ← store buf k c
  let rest : Outcome (ℕ × List ℕ) = put_digits base (x / base) k buf'
  if x / base == 0 then ok (k, buf') else rest

-- `buf[i--] = '-'` with `k` for `i + 1`
unfoldable pub put_sign : ℕ → List ℕ → Outcome (ℕ × List ℕ)
put_sign zero buf = fault
put_sign (suc k) buf = store buf k 45 >>= λ buf'. ok (k, buf')

-- printint over what its buffer holds; `xx` is an `int` in 32 bits. The digits begin at no index
-- below 0.
unfoldable pub printint : List ℕ → ℕ → ℕ → Bool → Outcome (List ℕ)
printint buf xx base sign = do
  let negative : Bool = sign && leb (2 ^ 31) xx
  let x : ℕ = if negative then (2 ^ 32 - xx) % 2 ^ 32 else xx
  buf' ← store buf 16 0
  r ← put_digits base x 16 buf'
  s ← (if negative then put_sign r.0 r.1 else ok r)
  cons_puts (drop s.0 s.1)

-- The loop of printptr with `j` digits left.
unfoldable pub ptr_digits : ℕ → ℕ → Outcome (List ℕ)
ptr_digits zero x = ok []
ptr_digits (suc j) x = do
  c ← load digits (x / 2 ^ 60)
  cs ← ptr_digits j (x * 16 % 2 ^ 64)
  ok (c ∷ cs)

-- Its buffer holds "0x", the digits and the end of the string, and is larger than that.
unfoldable pub printptr : ℕ → Outcome (List ℕ)
printptr x = ptr_digits 16 x >>= λ cs. cons_puts (48 ∷ 120 ∷ cs ++ 0 ∷ [])

-- What va_arg gives: an `int`, a `uint64_t`, or a string, none for NULL.
pub data Arg : Type 0 where
  int_arg : ℕ → Arg
  ptr_arg : ℕ → Arg
  str_arg : Option (List ℕ) → Arg

-- the characters before the next percent sign or the end, counted, and the string from there
unfoldable pub plain_run : List ℕ → ℕ × List ℕ
plain_run [] = (0, [])
plain_run (c ∷ s) =
    let rest : ℕ × List ℕ = plain_run s in
    if c == 0 || c == 37 then (0, c ∷ s) else (rest.0 + 1, rest.1)

-- the double percent signs, and the string behind them
unfoldable pub percents : List ℕ → ℕ × List ℕ
percents (c ∷ d ∷ s) =
    let rest : ℕ × List ℕ = percents s in
    if c == 37 && d == 37 then (rest.0 + 1, rest.1) else (0, c ∷ d ∷ s)
percents s = (0, s)

-- "(null)" and its end
abbrev null_string : List ℕ
null_string = 40 ∷ 110 ∷ 117 ∷ 108 ∷ 108 ∷ 41 ∷ 0 ∷ []

abbrev print_arg : List ℕ → ℕ → Arg → Outcome (List ℕ)
print_arg buf base (int_arg xx) = printint buf xx base true
print_arg buf base (ptr_arg x) = fault
print_arg buf base (str_arg s) = fault

abbrev print_ptr : Arg → Outcome (List ℕ)
print_ptr (int_arg xx) = fault
print_ptr (ptr_arg x) = printptr x
print_ptr (str_arg s) = fault

abbrev print_str : Arg → Outcome (List ℕ)
print_str (int_arg xx) = fault
print_str (ptr_arg x) = fault
print_str (str_arg none) = cons_puts null_string
print_str (str_arg (some s)) = cons_puts s

-- an argument taken by va_arg and printed
abbrev with_arg : (Arg → Outcome (List ℕ)) → List Arg → Outcome (List ℕ × List Arg)
with_arg print [] = fault
with_arg print (a ∷ args) = print a >>= λ out. ok (out, args)

-- The `switch` of vprintk on the character behind the percent sign, with what the buffer of
-- printint holds.
unfoldable pub convert : List ℕ → ℕ → List Arg → Outcome (List ℕ × List Arg)
convert buf c args =
    if c == 100
    then with_arg (print_arg buf 10) args
    else if c == 120
    then with_arg (print_arg buf 16) args
    else if c == 112
    then with_arg print_ptr args
    else if c == 115
    then with_arg print_str args
    else ok (cons_putc 37 ++ cons_putc c, args)

-- The loop of vprintk; a round takes at least one character of the format.
unfoldable pub vprintk_loop : ℕ → List ℕ → List ℕ → List Arg → Outcome (List ℕ)
vprintk_loop zero buf s args = hang
vprintk_loop (suc fuel) buf [] args = fault
vprintk_loop (suc fuel) buf (c ∷ s) args =
    let (k, s1) = plain_run (c ∷ s) in
    let (z, s2) = percents s1 in
    let after_text : Outcome (List ℕ) = (do
      out ← cons_puts_n (k + z) (c ∷ s)
      rest ← vprintk_loop fuel buf s2 args
      ok (out ++ rest)) in
    let after_sign : Outcome (List ℕ) = (do
      d ← load s2 1
      let conversion : Outcome (List ℕ) = (do
        r ← convert buf d args
        rest ← vprintk_loop fuel buf (drop 2 s2) r.1
        ok (r.0 ++ rest))
      if d == 0 then ok [] else conversion) in
    if c == 0 then ok [] else if ltb 0 (k + z) then after_text else after_sign

unfoldable pub vprintk : List ℕ → List ℕ → List Arg → Outcome (List ℕ)
vprintk buf fmt args = vprintk_loop (length fmt + 1) buf fmt args
