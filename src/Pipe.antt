-- ===== src/Pipe.antt =====
-- src/fs_pipe.c: the pipe, a ring of 512 bytes between a writer and a reader. Its spinlock is held
-- except during a sleep, and a call that sleeps is modelled up to that sleep.
pub mod Ring
pub mod Write
pub mod Read
pub mod RoundTrip
mod Tests
use k210_os.Prelude.{
  ℕ, zero, suc, ◌+◌, ◌-◌, ◌*◌, ◌/◌, ◌%◌, ◌^◌, ◌<◌, ◌≤◌, ◌≡◌, ◌≢◌, ◌↔◌, ◌⊎◌, inl, inr, refl, sym, ap,
  ◌∙◌, min, max, Bool, true, false, not, ◌&&◌, ◌||◌, Option, none, some, List, [], ◌∷◌, ◌++◌, map,
  arith, ltb, leb, ◌==◌, if◌then◌else◌, lt→ltb, ltb→lt, ltb→le, leb→le, eq→==, ==→eq, Bool-cases,
  length, get_elem?, get_or, set, replicate, take, drop, length-append, length-set,
  length-replicate, get_elem?-eq-get_or, get_or-set, get_or-append, set-set, set-get_or, Outcome,
  ok, panic, fault, hang, ◌>>=◌, ◌>>◌, assert, from_option, load, store, load-ok, store-ok, Yields,
  Yields->>=, Yields-map, holds_below, holds_below→test,
}

abbrev pub pipe_size : ℕ
pipe_size = 512

-- `struct pipe`: the counters are `uint`, and the waiters' queues hold pids.
pub record Pipe : Type 0 where
  pub bytes : List ℕ
  pub nread : ℕ
  pub nwrite : ℕ
  pub readopen : Bool
  pub writeopen : Bool
  pub rwaiter : List ℕ
  pub wwaiter : List ℕ

-- The part of pipealloc that fills a new pipe in, over whatever bytes the block holds.
unfoldable pub pipe_init : List ℕ → Pipe
pipe_init bytes = record {
  bytes = bytes;
  nread = 0;
  nwrite = 0;
  readopen = true;
  writeopen = true;
  rwaiter = [];
  wwaiter = [];
}

-- wakeup_fromwq: the first waiter leaves the queue for the ready list.
abbrev pub wake : List ℕ → List ℕ
wake [] = []
wake (p ∷ ps) = ps

-- Whether the pipe is freed, and the pipe.
unfoldable pub pipe_close : Pipe → Bool → Bool × Pipe
pipe_close pi writable =
    let pi' : Pipe =
      if writable
      then record pi { writeopen = false; rwaiter = wake pi.rwaiter }
      else record pi { readopen = false; wwaiter = wake pi.wwaiter } in
    (not pi'.readopen && not pi'.writeopen, pi')

abbrev pub is_full : Pipe → Bool
is_full pi = pi.nwrite == (pi.nread + pipe_size) % 2 ^ 32

abbrev pub is_empty : Pipe → Bool
is_empty pi = pi.nread == pi.nwrite

-- How a call ends: by returning, by returning -1, or asleep with this much left to do.
pub data Ended (A : Type 0) : Type 0 where
  done : A → Pipe → Ended A
  failed : Pipe → Ended A
  asleep : A → Pipe → Ended A

-- `pi->data[pi->nwrite++ % PIPESIZE] = ch`
unfoldable pub put_byte : Pipe → ℕ → Pipe
put_byte pi ch = record pi {
  bytes = set pi.bytes (pi.nwrite % pipe_size) ch;
  nwrite = (pi.nwrite + 1) % 2 ^ 32;
}

-- The loop of pipewrite at index `i`, with what `copyin2` gives for each byte left (none for -1).
-- It is done with the count of bytes written.
unfoldable pub write_loop : ℕ → Bool → Pipe → ℕ → List (Option ℕ) → Ended ℕ
write_loop pid killed pi i [] = done i (record pi { rwaiter = wake pi.rwaiter })
write_loop pid killed pi i (byte ∷ rest) =
    let go : Ended ℕ = elim byte [
      | none ↦ done i (record pi { rwaiter = wake pi.rwaiter })
      | some ch ↦ write_loop pid killed (put_byte pi ch) (i + 1) rest
    ] in
    if is_full pi
    then (if not pi.readopen || killed
        then failed pi
        else asleep i (record pi { rwaiter = wake pi.rwaiter; wwaiter = pi.wwaiter ++ pid ∷ [] }))
    else go

unfoldable pub pipe_write : ℕ → Bool → Pipe → List (Option ℕ) → Ended ℕ
pipe_write pid killed pi source = write_loop pid killed pi 0 source

-- The copying loop of piperead with the rounds left; `copyout` tells whether the byte at an index
-- reaches the user. The bytes that reached the user, in order.
unfoldable pub read_loop : (ℕ → Bool) → ℕ → ℕ → Pipe → Outcome (List ℕ × Pipe)
read_loop copyout zero i pi = ok ([], pi)
read_loop copyout (suc rounds) i pi =
    let pi' : Pipe = record pi { nread = (pi.nread + 1) % 2 ^ 32 } in
    let rest : ℕ → Outcome (List ℕ × Pipe) =
      λ ch. (read_loop copyout rounds (i + 1) pi' >>= λ r. ok (ch ∷ r.0, r.1)) in
    let step : Outcome (List ℕ × Pipe) =
      (load pi.bytes (pi.nread % pipe_size) >>= λ ch.
      if copyout i then rest ch else ok ([], pi')) in
    if is_empty pi then ok ([], pi) else step

unfoldable pub pipe_read : ℕ → Bool → (ℕ → Bool) → Pipe → ℕ → Outcome (Ended (List ℕ))
pipe_read pid killed copyout pi n =
    if is_empty pi && pi.writeopen
    then (if killed
        then ok (failed pi)
        else ok (asleep [] (record pi { rwaiter = pi.rwaiter ++ pid ∷ [] })))
    else (read_loop copyout n 0 pi >>= λ r.
        ok (done r.0 (record (r.1) { wwaiter = wake (r.1).wwaiter })))
