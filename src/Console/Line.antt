-- ===== src/Console/Line.antt =====
-- Reading from the console, line by line.
use k210_os.Prelude.{
  ℕ, zero, suc, ◌+◌, ◌%◌, ◌^◌, ◌<◌, ◌≡◌, inl, inr, refl, ap, ◌∙◌, Bool, true, false, not, Option,
  none, some, List, [], ◌∷◌, arith, ltb, ◌==◌, if◌then◌else◌, lt→ltb, Bool-cases, length, get_or,
  Outcome, ok, panic, ◌>>=◌, load, load-ok,
}
use k210_os.Task.{Kernel, acquire_tcb, release_at, change_lock, sleep, is_zombie}
use k210_os.Console.{
  Console, input_buf, ConsoleRead, has_read, with_byte, wait_input, console_loop, consoleread,
}

abbrev pub more_line : ℕ → Option (List ℕ × ℕ) → Option (List ℕ × ℕ)
more_line c none = none
more_line c (some (bytes, taken)) = some (c ∷ bytes, taken + 1)

-- What a read of `n` bytes should give of the input, and how many bytes of the input it takes: up
-- to the end of a line, and at most to a control-D, which is taken if no byte comes before it. none
-- stands for a wait.
unfoldable pub line : Bool → ℕ → List ℕ → Option (List ℕ × ℕ)
line begun zero input = some ([], 0)
line begun (suc n) [] = none
line begun (suc n) (c ∷ input) =
    let rest : Option (List ℕ × ℕ) = line true n input in
    if c == 4
    then some ([], if begun then 0 else 1)
    else if c == 10
    then some (c ∷ [], 1)
    else more_line c rest

-- the next `count` bytes of the ring
unfoldable pub pending : List ℕ → ℕ → ℕ → List ℕ
pending buf r zero = []
pending buf r (suc count) = get_or buf (r % input_buf) 0 ∷ pending buf ((r + 1) % 2 ^ 32) count

-- The read returns just that, and panics where it should wait.
unfoldable pub served : Console → Option (List ℕ × ℕ) → Outcome ConsoleRead
served cons none = panic
served cons (some (bytes, taken)) =
    ok (has_read bytes (record cons { r = (cons.r + taken) % 2 ^ 32 }))

-- A ring with `count` bytes in it.
pub record HasInput (cons : Console) (count : ℕ) : Type 0 where
  pub size : length cons.buf ≡ input_buf
  pub read_index : cons.r < 2 ^ 32
  pub few : count < 2 ^ 32
  pub write_index : cons.w ≡ (cons.r + count) % 2 ^ 32

-- Nobody holds the lock of the console, so its release panics.
wait_input-panic :
    (lock waitr : ℕ) (k : Kernel) (cons : Console)
    → k.locked lock ≡ false
    → wait_input lock waitr k cons ≡ panic
unfolding wait_input sleep change_lock acquire_tcb release_at
wait_input-panic lock waitr k cons free =
    elim (Bool-cases (is_zombie (k.tcb k.current).task_status)) [
      | inl dead ↦ rw (dead, free) refl
      | inr lives ↦ rw lives (elim (Bool-cases (k.tcb k.current).tcb_lock) [
        | inl held ↦ rw held refl
        | inr here ↦ rw here (rw free refl)
      ])
    ]

served-more_line :
    (cons : Console) (c : ℕ) (l : Option (List ℕ × ℕ))
    → (served (record cons { r = (cons.r + 1) % 2 ^ 32 }) l >>= λ x. ok (with_byte c x))
      ≡ served cons (more_line c l)
unfolding served with_byte
served-more_line cons c none = refl
served-more_line cons c (some (bytes, taken)) =
    let index : ((cons.r + 1) % 2 ^ 32 + taken) % 2 ^ 32 ≡ (cons.r + (taken + 1)) % 2 ^ 32 =
      omega arith in
    ap (λ i. ok (has_read (c ∷ bytes) (record cons { r = i }))) index

-- One byte of the input, by the tests on it and on the bytes before it.
byte-served :
    (cons : Console) (c : ℕ) (m : Outcome ConsoleRead) (l : Option (List ℕ × ℕ))
    (stops ends begun : Bool)
    → cons.r < 2 ^ 32
    → (m >>= λ x. ok (with_byte c x)) ≡ served cons (more_line c l)
    → (if stops
        then ok (has_read [] (if begun then cons else record cons { r = (cons.r + 1) % 2 ^ 32 }))
        else if not true
        then ok (has_read [] (record cons { r = (cons.r + 1) % 2 ^ 32 }))
        else if ends
        then ok (has_read (c ∷ []) (record cons { r = (cons.r + 1) % 2 ^ 32 }))
        else (m >>= λ x. ok (with_byte c x)))
      ≡ served cons (
          if stops
          then some ([], if begun then 0 else 1)
          else if ends
          then some (c ∷ [], 1)
          else more_line c l)
unfolding served
byte-served cons c m l true ends true w e =
    ap (λ i. ok (has_read [] (record cons { r = i }))) (omega arith)
byte-served cons c m l true ends false w e = refl
byte-served cons c m l false true begun w e = refl
byte-served cons c m l false false begun w e = e

module _ (lock waitr : ℕ) (k : Kernel) (copyout : ℕ → Bool) (free : k.locked lock ≡ false)
    (copies : (i : ℕ) → copyout i ≡ true) where
  console_loop-line :
      (n done count : ℕ) (cons : Console)
      → HasInput cons count
      → console_loop lock waitr k copyout done n cons
        ≡ served cons (line (ltb 0 done) n (pending cons.buf cons.r count))
  unfolding console_loop line pending served
  console_loop-line zero done count cons v =
      ap (λ i. ok (has_read [] (record cons { r = i }))) (omega (arith, v.read_index))
  console_loop-line (suc n) done zero cons v =
      let empty : (cons.r == cons.w) ≡ true = ground (arith, v.read_index, v.write_index) in
      rw empty (wait_input-panic lock waitr k cons free)
  console_loop-line (suc n) done (suc count) cons v =
      let some_left : (cons.r == cons.w) ≡ false =
        ground (arith, v.read_index, v.write_index, v.few) in
      let next : Console = record cons { r = (cons.r + 1) % 2 ^ 32 } in
      let c : ℕ = get_or cons.buf (cons.r % input_buf) 0 in
      let at : load cons.buf (cons.r % input_buf) ≡ ok c =
        load-ok cons.buf (cons.r % input_buf) 0 (omega (arith, v.size)) in
      let begun : ltb 0 (done + 1) ≡ true = lt→ltb 0 (done + 1) (omega arith) in
      let rest : console_loop lock waitr k copyout (done + 1) n next
          ≡ served next (line true n (pending cons.buf next.r count)) =
        console_loop-line n (done + 1) count next (record {
          size = v.size;
          read_index = omega arith;
          few = omega (arith, v.few);
          write_index = omega (arith, v.write_index);
        })
        ∙ ap (λ b. served next (line b n (pending cons.buf next.r count))) begun in
      rw (some_left, at, copies done)
        (byte-served cons c (console_loop lock waitr k copyout (done + 1) n next)
          (line true n (pending cons.buf next.r count)) (c == 4) (c == 10) (ltb 0 done) v.read_index
          (ap (λ m. m >>= λ x. ok (with_byte c x)) rest
            ∙ served-more_line cons c (line true n (pending cons.buf next.r count))))

-- Where nobody holds the lock of the console, consoleread returns the first bytes of the input as
-- `line` tells and takes those from the ring, whatever its indices, wrapped around or not; where
-- the input ends before the line and the bytes asked for do, it panics in the release of that lock
-- instead of the wait. The copies to the caller have to succeed.
pub consoleread-line :
    (lock waitr : ℕ) (k : Kernel) (copyout : ℕ → Bool) (n count : ℕ) (cons : Console)
    → k.locked lock ≡ false
    → ((i : ℕ) → copyout i ≡ true)
    → HasInput cons count
    → consoleread lock waitr k copyout n cons
      ≡ served cons (line false n (pending cons.buf cons.r count))
unfolding consoleread
consoleread-line lock waitr k copyout n count cons free copies v =
    console_loop-line lock waitr k copyout free copies n 0 count cons v
