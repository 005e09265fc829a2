-- ===== src/Pipe/Write.antt =====
-- pipewrite appends to the queue of the pipe.
use mathlib.Core.List.{append-nil, append_assoc}
use k210_os.Prelude.{
  ℕ, ◌+◌, ◌≡◌, ◌≢◌, ◌⊎◌, inl, inr, refl, sym, ap, ◌∙◌, Bool, true, false, not, ◌||◌, some, List, [],
  ◌∷◌, ◌++◌, map, arith, ==→eq, Bool-cases, length,
}
use k210_os.Pipe.{
  Pipe, wake, Ended, done, failed, asleep, pipe_size, put_byte, is_full, write_loop, pipe_write,
}
use k210_os.Pipe.Ring.{IsValid, contents, fill, length-window, is_full-fill, put_byte-contents}

-- `p'` is `pi` with the first bytes of `bytes` behind its own, `rest` being left.
pub record Appended (pi : Pipe) (bytes rest : List ℕ) (p' : Pipe) : Type 0 where
  pub written : List ℕ
  pub split : bytes ≡ written ++ rest
  pub valid : IsValid p'
  pub queue : contents p' ≡ contents pi ++ written

-- What pipewrite may come to: all bytes are in the pipe and their number is returned; or the pipe
-- is full, bytes are left, and the caller, who is not killed, sleeps behind the other writers while
-- the pipe has a reader; or it is full and there is no point in waiting. The first reader that waits
-- is woken up before a return of a number and before a sleep, and nothing else of the pipe changes.
pub data Wrote (pid : ℕ) (killed : Bool) (pi : Pipe) (bytes : List ℕ) (i : ℕ)
    : Ended ℕ → Type 0 where
  all :
      {n : ℕ} {p' : Pipe}
      → n ≡ i + length bytes
      → Appended pi bytes [] p'
      → p' ≡ record pi { bytes = p'.bytes; nwrite = p'.nwrite; rwaiter = wake pi.rwaiter }
      → Wrote pid killed pi bytes i (done n p')
  waits :
      {n : ℕ} {p' : Pipe} (rest : List ℕ)
      → n + length rest ≡ i + length bytes
      → rest ≢ []
      → Appended pi bytes rest p'
      → length (contents p') ≡ pipe_size
      → p'.readopen ≡ true
      → killed ≡ false
      → p' ≡ record pi {
        bytes = p'.bytes;
        nwrite = p'.nwrite;
        rwaiter = wake pi.rwaiter;
        wwaiter = pi.wwaiter ++ pid ∷ [];
      }
      → Wrote pid killed pi bytes i (asleep n p')
  gives_up :
      {p' : Pipe} (rest : List ℕ)
      → rest ≢ []
      → Appended pi bytes rest p'
      → length (contents p') ≡ pipe_size
      → (p'.readopen ≡ false) ⊎ (killed ≡ true)
      → p' ≡ record pi { bytes = p'.bytes; nwrite = p'.nwrite }
      → Wrote pid killed pi bytes i (failed p')

-- Only the waiters differ.
Appended-waiters :
    (pi : Pipe) (bytes readers writers : List ℕ)
    → IsValid pi
    → Appended pi bytes bytes (record pi { rwaiter = readers; wwaiter = writers })
Appended-waiters pi bytes readers writers v = record {
  written = [];
  split = refl;
  valid = record {
    size = v.size;
    read_word = v.read_word;
    write_word = v.write_word;
    filled = v.filled;
  };
  queue = sym (append-nil (contents pi));
}

Appended-put_byte :
    (pi : Pipe) (ch : ℕ) (bytes rest : List ℕ) (p' : Pipe)
    → IsValid pi
    → is_full pi ≡ false
    → Appended (put_byte pi ch) bytes rest p'
    → Appended pi (ch ∷ bytes) rest p'
Appended-put_byte pi ch bytes rest p' v h a = record {
  written = ch ∷ a.written;
  split = ap (◌∷◌ ch) a.split;
  valid = a.valid;
  queue =
      a.queue
      ∙ (ap (λ q. q ++ a.written) (put_byte-contents pi ch v h).1
          ∙ append_assoc (contents pi) (ch ∷ []) a.written);
}

Wrote-put_byte :
    (pid : ℕ) (killed : Bool) (pi : Pipe) (ch : ℕ) (bytes : List ℕ) (i : ℕ) {e : Ended ℕ}
    → IsValid pi
    → is_full pi ≡ false
    → Wrote pid killed (put_byte pi ch) bytes (i + 1) e
    → Wrote pid killed pi (ch ∷ bytes) i e
unfolding put_byte
Wrote-put_byte pid killed pi ch bytes i v h (all e a kept) =
    all (omega arith) (Appended-put_byte pi ch bytes [] _ v h a) kept
Wrote-put_byte pid killed pi ch bytes i v h (waits rest e ne a full reader lives kept) =
    waits rest (omega arith) ne (Appended-put_byte pi ch bytes rest _ v h a) full reader lives kept
Wrote-put_byte pid killed pi ch bytes i v h (gives_up rest ne a full why kept) =
    gives_up rest ne (Appended-put_byte pi ch bytes rest _ v h a) full why kept

write_loop-Wrote :
    (pid : ℕ) (killed : Bool) (pi : Pipe) (i : ℕ) (bytes : List ℕ)
    → IsValid pi
    → Wrote pid killed pi bytes i (write_loop pid killed pi i (map some bytes))
unfolding write_loop
write_loop-Wrote pid killed pi i [] v =
    all (omega arith) (Appended-waiters pi [] (wake pi.rwaiter) pi.wwaiter v) refl
write_loop-Wrote pid killed pi i (ch ∷ bytes) v = elim (Bool-cases (is_full pi)) [
  | inr room ↦ rw room (
      Wrote-put_byte pid killed pi ch bytes i v room (
        write_loop-Wrote pid killed (put_byte pi ch) (i + 1) bytes
          (put_byte-contents pi ch v room).0))
  | inl full ↦
      let size : length (contents pi) ≡ pipe_size =
        length-window pi.bytes pi.nread (fill pi) ∙ ==→eq _ _ (sym (is_full-fill pi v) ∙ full) in
      rw full (elim (Bool-cases (not pi.readopen || killed)) [
        | inl stop ↦ rw stop (
            gives_up (ch ∷ bytes) (λ e. cc)
              (Appended-waiters pi (ch ∷ bytes) pi.rwaiter pi.wwaiter v) size (ground arith) refl)
        | inr wait ↦ rw wait (
            waits (ch ∷ bytes) refl (λ e. cc)
              (Appended-waiters pi (ch ∷ bytes) (wake pi.rwaiter) (pi.wwaiter ++ pid ∷ []) v) size
              (ground arith) (ground arith) refl)
      ])
]

-- pipewrite, where the user's bytes can be read: it returns their number with all of them at the
-- end of the queue and the first waiting reader woken up; or, with a first part of them there, the
-- queue at 512 bytes and some left, it returns -1 for want of a reader or because the task was
-- killed, or, if there is a reader and the task was not killed, it wakes the first waiting reader
-- up and sleeps behind the writers that wait. No other field of the pipe changes.
pub pipe_write-Wrote :
    (pid : ℕ) (killed : Bool) (pi : Pipe) (bytes : List ℕ)
    → IsValid pi
    → Wrote pid killed pi bytes 0 (pipe_write pid killed pi (map some bytes))
unfolding pipe_write
pipe_write-Wrote pid killed pi bytes v = write_loop-Wrote pid killed pi 0 bytes v
