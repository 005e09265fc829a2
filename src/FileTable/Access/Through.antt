-- ===== src/FileTable/Access/Through.antt =====
-- What is written to an open pipe is read from it.
use k210_os.Prelude.{
  ℕ, ◌≤◌, ◌≡◌, ◌≢◌, refl, sym, ap, ◌∙◌, Bool, true, Option, some, List, [], map, ◌==◌,
  if◌then◌else◌, eq→==, length, Outcome, ok, ◌>>=◌, Yields, Yields->>=,
}
use k210_os.Fat32.{Volume}
use k210_os.Pipe.{Pipe, Ended, done, failed, asleep, pipe_size, pipe_write, pipe_read}
use k210_os.Pipe.Ring.{IsValid, contents}
use k210_os.Pipe.RoundTrip.{read_after, write_read, Got, write_read-Got}
use k210_os.FileTable.{File, fd_pipe}
use k210_os.FileTable.Access.{
  Answer, returned, Objects, Devsw, source_bytes, put_pipe, from_pipe, fileread, filewrite,
}

-- The two ends of a pipe, as pipealloc leaves them.
pub record AreEnds (w r : File) : Type 0 where
  pub writes : (w.type ≡ fd_pipe) × (w.writable ≡ true)
  pub reads : (r.type ≡ fd_pipe) × (r.readable ≡ true)
  pub same_pipe : w.pipe ≡ r.pipe

-- The read returns these bytes, and the pipe is empty behind it.
abbrev pub Passed : {S : Type 0} → File → List ℕ → Answer (List ℕ) × File × Objects S → Type 0
Passed r bytes x = (x.0 ≡ returned bytes) × (contents ((x.2).pipes r.pipe) ≡ [])

module _ {S : Type 0} (fat : Volume) (devsw : List (Devsw S)) (pid : ℕ) (killed : Bool)
    (copyin : ℕ → ℕ → Option (List ℕ)) (w r : File) where
  -- a filewrite to the one end, and then a fileread of `n` bytes from the other, whose copies to
  -- the caller succeed
  unfoldable pub pass_through :
      ℕ → ℕ → ℕ → ℕ → Objects S → Outcome (Answer (List ℕ) × File × Objects S)
  pass_through address count address' n o =
      filewrite fat devsw pid killed copyin w address count o >>= λ x.
      fileread fat devsw pid killed (λ a k. true) r address' n x.2

  filewrite-pipe_write :
      (address : ℕ) (bytes : List ℕ) (o : Objects S)
      → AreEnds w r
      → source_bytes copyin address (length bytes) ≡ map some bytes
      → filewrite fat devsw pid killed copyin w address (length bytes) o
        ≡ ok (from_pipe w o (pipe_write pid killed (o.pipes w.pipe) (map some bytes)))
  unfolding filewrite
  filewrite-pipe_write address bytes o ends e = simp (ends.writes.0, ends.writes.1, e) refl

  fileread-pipe_read :
      (address n : ℕ) (o : Objects S) (p : Pipe)
      → AreEnds w r
      → fileread fat devsw pid killed (λ a k. true) r address n (put_pipe o w.pipe p)
        ≡ (pipe_read pid killed (λ i. true) p n >>= λ x. ok (from_pipe r (put_pipe o w.pipe p) x))
  unfolding fileread
  fileread-pipe_read address n o p ends =
      let here : (r.pipe == w.pipe) ≡ true = eq→== r.pipe w.pipe (sym ends.same_pipe) in
      simp (ends.reads.0, ends.reads.1, here) refl

  -- What the read at the pipe's end comes to, from what it comes to at the pipe.
  Got-Passed :
      (o : Objects S) (p : Pipe) (bytes : List ℕ) (x : Ended (List ℕ))
      → Got bytes x
      → Passed r bytes (from_pipe r (put_pipe o w.pipe p) x)
  Got-Passed o p bytes (done out p') g =
      let here : (if r.pipe == r.pipe then p' else (put_pipe o w.pipe p).pipes r.pipe) ≡ p' =
        ap (λ b. if b then p' else (put_pipe o w.pipe p).pipes r.pipe) (eq→== r.pipe r.pipe refl) in
      (ap returned g.0, ap contents here ∙ g.1)
  Got-Passed o p bytes (failed p') g = absurd g
  Got-Passed o p bytes (asleep out p') g = absurd g

  read_behind :
      (address n : ℕ) (o : Objects S) (bytes : List ℕ)
      → AreEnds w r
      → (x : Ended ℕ) → Yields (Got bytes) (read_after pid killed n x)
      → Yields
          (Passed r bytes)
          (fileread fat devsw pid killed (λ a k. true) r address n (from_pipe w o x).2)
  unfolding read_after
  read_behind address n o bytes ends (done k p) g = rw (fileread-pipe_read address n o p ends) (
      Yields->>= (Got bytes) (Passed r bytes) (pipe_read pid killed (λ i. true) p n)
        (λ x. ok (from_pipe r (put_pipe o w.pipe p) x)) g (λ x. Got-Passed o p bytes x))
  read_behind address n o bytes ends (failed p) g = absurd g
  read_behind address n o bytes ends (asleep k p) g = absurd g

-- Where an open file writes one to 512 bytes to an empty pipe, a read of at least as many from the
-- file at its other end returns just those bytes in their order and leaves the pipe empty, wherever
-- the counters of the pipe stand. The copies from and to the caller have to succeed.
pub pass_through-Passed :
    {S : Type 0} (fat : Volume) (devsw : List (Devsw S)) (pid : ℕ) (killed : Bool)
    (copyin : ℕ → ℕ → Option (List ℕ)) (w r : File) (address address' n : ℕ) (bytes : List ℕ)
    (o : Objects S)
    → AreEnds w r
    → source_bytes copyin address (length bytes) ≡ map some bytes
    → IsValid (o.pipes w.pipe)
    → contents (o.pipes w.pipe) ≡ []
    → bytes ≢ []
    → length bytes ≤ pipe_size
    → length bytes ≤ n
    → Yields
        (Passed r bytes)
        (pass_through fat devsw pid killed copyin w r address (length bytes) address' n o)
unfolding pass_through write_read
pass_through-Passed fat devsw pid killed copyin w r address address' n bytes o ends e v gone ne
      small le =
    rw (filewrite-pipe_write fat devsw pid killed copyin w r address bytes o ends e) (
      read_behind fat devsw pid killed copyin w r address' n o bytes ends
        (pipe_write pid killed (o.pipes w.pipe) (map some bytes))
        (write_read-Got pid killed (o.pipes w.pipe) bytes n v gone ne small le))
