-- ===== src/Pipe/RoundTrip.antt =====
-- What is written to an empty pipe is read from it.
use mathlib.Core.List.{append-nil}
use k210_os.Prelude.{
  ℕ, ◌≤◌, ◌≡◌, ◌≢◌, refl, sym, ap, ◌∙◌, Bool, true, some, List, [], ◌∷◌, ◌++◌, map, arith, length,
  length-append, Outcome, ok, Yields, Yields-map,
}
use k210_os.Pipe.{Pipe, Ended, done, failed, asleep, pipe_size, pipe_write, pipe_read}
use k210_os.Pipe.Ring.{IsValid, contents}
use k210_os.Pipe.Write
use k210_os.Pipe.Write.{Wrote, all, Appended, pipe_write-Wrote}
use k210_os.Pipe.Read
use k210_os.Pipe.Read.{WasRead, TakenOut, pipe_read-WasRead}

-- pipewrite, and then piperead if it has returned
unfoldable pub read_after : ℕ → Bool → ℕ → Ended ℕ → Outcome (Ended (List ℕ))
read_after pid killed n (done k p') = pipe_read pid killed (λ j. true) p' n
read_after pid killed n (failed p') = ok (failed p')
read_after pid killed n (asleep k p') = ok (asleep [] p')

unfoldable pub write_read : ℕ → Bool → Pipe → List ℕ → ℕ → Outcome (Ended (List ℕ))
write_read pid killed pi bytes n =
    read_after pid killed n (pipe_write pid killed pi (map some bytes))

-- The read has returned these bytes and has left the pipe empty.
abbrev pub Got : List ℕ → Ended (List ℕ) → Type 0
Got bytes (done out p') = (out ≡ bytes) × (contents p' ≡ [])
Got bytes (failed p') = ⊥
Got bytes (asleep out p') = ⊥

no_length : (xs : List ℕ) → length xs ≡ 0 → xs ≡ []
no_length [] e = refl
no_length (x ∷ xs) e = absurd (omega arith)

WasRead-Got :
    (pid : ℕ) (killed : Bool) (p' : Pipe) (bytes : List ℕ) (n : ℕ) (r : Ended (List ℕ))
    → contents p' ≡ bytes
    → bytes ≢ []
    → length bytes ≤ n
    → WasRead pid killed p' n r
    → Got bytes r
WasRead-Got pid killed p' bytes n (done out p2) e ne h (Read.bytes _ t _) =
    let empty : contents p2 ≡ [] =
      no_length (contents p2)
        (omega (arith, t.count, ap length t.queue, length-append out (contents p2), ap length e)) in
    (sym (append-nil out) ∙ (ap (◌++◌ out) (sym empty) ∙ (sym t.queue ∙ e)), empty)
WasRead-Got pid killed p' bytes n (asleep out p2) e ne h (Read.waits gone _ _ _) = ne (sym e ∙ gone)
WasRead-Got pid killed p' bytes n (failed p2) e ne h (Read.gives_up gone _ _ _) = ne (sym e ∙ gone)

-- On an empty pipe, pipewrite of one to 512 bytes returns, and a piperead of at least as many gives
-- just those bytes in their order and leaves the pipe empty, wherever the counters stand.
pub write_read-Got :
    (pid : ℕ) (killed : Bool) (pi : Pipe) (bytes : List ℕ) (n : ℕ)
    → IsValid pi
    → contents pi ≡ []
    → bytes ≢ []
    → length bytes ≤ pipe_size
    → length bytes ≤ n
    → Yields (Got bytes) (write_read pid killed pi bytes n)
unfolding write_read read_after
write_read-Got pid killed pi bytes n v gone ne small h =
    from (pipe_write pid killed pi (map some bytes)) (pipe_write-Wrote pid killed pi bytes v)
  where
    overfull :
        {p' : Pipe} (rest : List ℕ)
        → rest ≢ []
        → Appended pi bytes rest p'
        → length (contents p') ≡ pipe_size
        → ⊥
    overfull {p'} rest some_rest a full = some_rest (
        no_length rest (
          omega (
            arith,
            full,
            small,
            ap length gone,
            ap length a.split,
            length-append a.written rest,
            ap length a.queue,
            length-append (contents pi) a.written,
          )))

    from :
        (r : Ended ℕ)
        → Wrote pid killed pi bytes 0 r
        → Yields (Got bytes) (read_after pid killed n r)
    from (done k p') (all e a _) =
        let there : contents p' ≡ bytes =
          a.queue ∙ (ap (λ xs. xs ++ a.written) gone ∙ sym (a.split ∙ append-nil a.written)) in
        Yields-map (WasRead pid killed p' n) (Got bytes) (pipe_read pid killed (λ j. true) p' n)
          (λ r w. WasRead-Got pid killed p' bytes n r there ne h w)
          (pipe_read-WasRead pid killed (λ j. true) p' n (λ j. refl) a.valid)
    from (asleep k p') (Write.waits rest _ some_rest a full _ _ _) =
        absurd (overfull rest some_rest a full)
    from (failed p') (Write.gives_up rest some_rest a full _ _) =
        absurd (overfull rest some_rest a full)
