-- ===== src/Pipe/Ring.antt =====
-- The bytes in the pipe as a queue.
use k210_os.Prelude.{
  ℕ, zero, suc, ◌+◌, ◌-◌, ◌%◌, ◌^◌, ◌<◌, ◌≤◌, ◌≡◌, refl, ap, false, List, [], ◌∷◌, ◌++◌, arith,
  ◌==◌, length, get_or, set, length-set, get_or-set,
}
use k210_os.Pipe.{Pipe, pipe_size, put_byte, is_full, is_empty}

-- the `n` bytes from counter `i` on, going round at the end of the array
unfoldable pub window : List ℕ → ℕ → ℕ → List ℕ
window bytes i zero = []
window bytes i (suc n) = get_or bytes (i % pipe_size) 0 ∷ window bytes (i + 1) n

-- how many bytes are in the pipe
abbrev pub fill : Pipe → ℕ
fill pi = (pi.nwrite + 2 ^ 32 - pi.nread) % 2 ^ 32

abbrev pub contents : Pipe → List ℕ
contents pi = window pi.bytes pi.nread (fill pi)

pub record IsValid (pi : Pipe) : Type 0 where
  pub size : length pi.bytes ≡ pipe_size
  pub read_word : pi.nread < 2 ^ 32
  pub write_word : pi.nwrite < 2 ^ 32
  pub filled : fill pi ≤ pipe_size

pub length-window : (bytes : List ℕ) (i n : ℕ) → length (window bytes i n) ≡ n
unfolding window
length-window bytes i zero = refl
length-window bytes i (suc n) = ap suc (length-window bytes (i + 1) n)

-- A window is the same at counters that agree modulo the size.
pub window-mod :
    (bytes : List ℕ) (i j n : ℕ)
    → i % pipe_size ≡ j % pipe_size
    → window bytes i n ≡ window bytes j n
unfolding window
window-mod bytes i j zero e = refl
window-mod bytes i j (suc n) e = rw (e, window-mod bytes (i + 1) (j + 1) n (omega arith))

-- Writing just past a window extends it by that byte.
pub window-set :
    (bytes : List ℕ) (i n k x : ℕ)
    → length bytes ≡ pipe_size
    → n < pipe_size
    → k ≡ (i + n) % pipe_size
    → window (set bytes k x) i (suc n) ≡ window bytes i n ++ x ∷ []
unfolding window
window-set bytes i zero k x s h e =
    let e' : i % pipe_size ≡ k = omega arith in
    let at : get_or (set bytes k x) k 0 ≡ x = ground (arith, get_or-set bytes k k x 0) in
    rw (e', at)
window-set bytes i (suc n) k x s h e =
    let kept : get_or (set bytes k x) (i % pipe_size) 0 ≡ get_or bytes (i % pipe_size) 0 =
      ground (arith, get_or-set bytes k (i % pipe_size) x 0) in
    rw kept (
      ap (◌∷◌ (get_or bytes (i % pipe_size) 0))
        (window-set bytes (i + 1) n k x s (omega arith) (omega arith)))

-- The code's two tests say whether the queue is full or empty.
pub is_full-fill : (pi : Pipe) → IsValid pi → is_full pi ≡ (fill pi == pipe_size)
is_full-fill pi v = ground (arith, v.filled, v.read_word, v.write_word)

pub is_empty-fill : (pi : Pipe) → IsValid pi → is_empty pi ≡ (fill pi == 0)
is_empty-fill pi v = ground (arith, v.filled, v.read_word, v.write_word)

-- One byte written to a pipe that is not full joins the end of its queue.
pub put_byte-contents :
    (pi : Pipe) (ch : ℕ)
    → IsValid pi
    → is_full pi ≡ false
    → IsValid (put_byte pi ch) × (contents (put_byte pi ch) ≡ contents pi ++ ch ∷ [])
unfolding put_byte
put_byte-contents pi ch v h =
    let room : fill pi < pipe_size = ground (arith, is_full-fill pi v, v.filled) in
    let more : fill (put_byte pi ch) ≡ suc (fill pi) = omega (arith, v.read_word, v.write_word) in
    (
      record {
        size = omega (arith, v.size, length-set pi.bytes (pi.nwrite % pipe_size) ch);
        read_word = v.read_word;
        write_word = omega arith;
        filled = omega (arith, more);
      },
      rw more (
          window-set pi.bytes pi.nread (fill pi) (pi.nwrite % pipe_size) ch v.size room
            (omega (arith, v.read_word, v.write_word))),
    )

-- One step of the reader takes the first byte of the queue.
pub contents-read :
    (pi : Pipe)
    → IsValid pi
    → is_empty pi ≡ false
    → let pi' : Pipe = record pi { nread = (pi.nread + 1) % 2 ^ 32 } in
      IsValid pi'
      × (contents pi ≡ get_or pi.bytes (pi.nread % pipe_size) 0 ∷ contents pi')
      × (fill pi ≡ suc (fill pi'))
unfolding window
contents-read pi v h =
    let pi' : Pipe = record pi { nread = (pi.nread + 1) % 2 ^ 32 } in
    let less : fill pi ≡ suc (fill pi') = ground (arith, v.filled, v.read_word, v.write_word) in
    (
      record {
        size = v.size;
        read_word = omega arith;
        write_word = v.write_word;
        filled = omega (arith, less, v.filled);
      },
      rw less (
          ap (◌∷◌ (get_or pi.bytes (pi.nread % pipe_size) 0))
            (window-mod pi.bytes (pi.nread + 1) pi'.nread (fill pi') (omega arith))),
      less,
    )
