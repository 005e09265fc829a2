-- ===== src/Pipe/Read.antt =====
-- piperead takes from the front of the queue of the pipe.
use k210_os.Prelude.{
  ℕ, zero, suc, ◌+◌, ◌%◌, ◌^◌, ◌≡◌, inl, inr, refl, sym, ap, ◌∙◌, min, Bool, true, false, ◌&&◌, ◌≢◌,
  ◌⊎◌, ◌==◌, List, [], ◌∷◌, ◌++◌, arith, ==→eq, Bool-cases, length, get_or, load-ok, Yields,
  Yields->>=,
}
use k210_os.Pipe.{
  Pipe, wake, Ended, done, failed, asleep, pipe_size, is_empty, read_loop, pipe_read,
}
use k210_os.Pipe.Ring.{IsValid, contents, fill, window, length-window, is_empty-fill, contents-read}

-- the bytes `out` have left the front of the queue, and no more than `n`
pub record TakenOut (pi : Pipe) (n : ℕ) (out : List ℕ) (p' : Pipe) : Type 0 where
  pub valid : IsValid p'
  pub queue : contents pi ≡ out ++ contents p'
  pub count : length out ≡ min n (length (contents pi))

nothing_left : (pi : Pipe) → IsValid pi → is_empty pi ≡ true → contents pi ≡ []
unfolding window
nothing_left pi v e =
    let none_left : fill pi ≡ 0 = ==→eq _ _ (sym (is_empty-fill pi v) ∙ e) in rw none_left

read_loop-TakenOut :
    (copyout : ℕ → Bool) (n i : ℕ) (pi : Pipe)
    → ((j : ℕ) → copyout j ≡ true)
    → IsValid pi
    → Yields
        (λ r. TakenOut pi n r.0 r.1 × (r.1 ≡ record pi { nread = (r.1).nread }))
        (read_loop copyout n i pi)
unfolding read_loop
read_loop-TakenOut copyout zero i pi h v =
    (record { valid = v; queue = refl; count = omega arith }, refl)
read_loop-TakenOut copyout (suc n) i pi h v = elim (Bool-cases (is_empty pi)) [
  | inl e ↦
      let gone : contents pi ≡ [] = nothing_left pi v e in
      rw e (record { valid = v; queue = refl; count = rw gone (omega arith) }, refl)
  | inr e ↦
      let pi' : Pipe = record pi { nread = (pi.nread + 1) % 2 ^ 32 } in
      let step = contents-read pi v e in
      rw (e, load-ok pi.bytes (pi.nread % pipe_size) 0 (omega (arith, v.size)), h i)
        (Yields->>= (λ r. TakenOut pi' n r.0 r.1 × (r.1 ≡ record pi' { nread = (r.1).nread }))
          (λ r. TakenOut pi (suc n) r.0 r.1 × (r.1 ≡ record pi { nread = (r.1).nread })) _ _
          (read_loop-TakenOut copyout n (i + 1) pi' h step.0)
          (λ r t. (
            record {
              valid = t.0.valid;
              queue = step.1 ∙ ap (◌∷◌ (get_or pi.bytes (pi.nread % pipe_size) 0)) t.0.queue;
              count = omega (arith, t.0.count, ap length step.1);
            },
            t.1,
          )))
]

-- What piperead may come to: bytes are taken, which there are, or no writer; or the pipe is empty
-- and has a writer, and the caller sleeps behind the other readers or was killed.
pub data WasRead (pid : ℕ) (killed : Bool) (pi : Pipe) (n : ℕ) : Ended (List ℕ) → Type 0 where
  bytes :
      {out : List ℕ} {p' : Pipe}
      → (contents pi ≢ []) ⊎ (pi.writeopen ≡ false)
      → TakenOut pi n out p'
      → p' ≡ record pi { nread = p'.nread; wwaiter = wake pi.wwaiter }
      → WasRead pid killed pi n (done out p')
  waits :
      {p' : Pipe}
      → contents pi ≡ []
      → pi.writeopen ≡ true
      → killed ≡ false
      → p' ≡ record pi { rwaiter = pi.rwaiter ++ pid ∷ [] }
      → WasRead pid killed pi n (asleep [] p')
  gives_up :
      {p' : Pipe}
      → contents pi ≡ []
      → pi.writeopen ≡ true
      → killed ≡ true
      → p' ≡ pi
      → WasRead pid killed pi n (failed p')

something_left : (pi : Pipe) → IsValid pi → is_empty pi ≡ false → contents pi ≢ []
something_left pi v e gone =
    let some_left : (fill pi == 0) ≡ false = sym (is_empty-fill pi v) ∙ e in
    let size : length (contents pi) ≡ fill pi = length-window pi.bytes pi.nread (fill pi) in
    ground (arith, some_left, size, ap length gone)

-- piperead, where the user's buffer can be written: from an empty pipe with a writer it returns -1
-- if the task was killed, and else sleeps behind the readers that wait; from any other pipe it takes
-- the first bytes of the queue, as many as there are but at most `n`, in their order, and wakes the
-- first waiting writer up. No other field of the pipe changes.
pub pipe_read-WasRead :
    (pid : ℕ) (killed : Bool) (copyout : ℕ → Bool) (pi : Pipe) (n : ℕ)
    → ((j : ℕ) → copyout j ≡ true)
    → IsValid pi
    → Yields (WasRead pid killed pi n) (pipe_read pid killed copyout pi n)
unfolding pipe_read
pipe_read-WasRead pid killed copyout pi n h v = elim (Bool-cases (is_empty pi && pi.writeopen)) [
  | inl e ↦
      let gone : contents pi ≡ [] = nothing_left pi v (ground arith) in
      rw e (elim (Bool-cases killed) [
        | inl k ↦ rw k (gives_up gone (ground arith) refl refl)
        | inr k ↦ rw k (waits gone (ground arith) refl refl)
      ])
  | inr e ↦ rw e (
      Yields->>= (λ r. TakenOut pi n r.0 r.1 × (r.1 ≡ record pi { nread = (r.1).nread }))
        (WasRead pid killed pi n) _ _ (read_loop-TakenOut copyout n 0 pi h v)
        (λ r t.
          bytes (there e)
            (record {
              valid = record {
                size = t.0.valid.size;
                read_word = t.0.valid.read_word;
                write_word = t.0.valid.write_word;
                filled = t.0.valid.filled;
              };
              queue = t.0.queue;
              count = t.0.count;
            })
            (ap {A = Pipe} {B = Pipe} (λ p. record p { wwaiter = wake p.wwaiter }) t.1)))
]
  where
    there : (is_empty pi && pi.writeopen) ≡ false → (contents pi ≢ []) ⊎ (pi.writeopen ≡ false)
    there e = elim (Bool-cases (is_empty pi)) [
      | inl x ↦ inr (ground arith)
      | inr x ↦ inl (something_left pi v x)
    ]
