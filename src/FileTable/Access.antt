-- ===== src/FileTable/Access.antt =====
-- src/fs_file.c: reading and writing an open file, whichever kind it is of, and the descriptors of
-- a task. A call of eread or ewrite stands between elock and eunlock.
pub mod Pieces
pub mod Through
use k210_os.Prelude.{
  ℕ, zero, suc, ◌+◌, ◌-◌, ◌*◌, ◌/◌, ◌%◌, ◌^◌, ◌<◌, ◌≤◌, ◌≡◌, ◌≢◌, ◌↔◌, ◌⊎◌, inl, inr, refl, sym, ap,
  ◌∙◌, min, max, Bool, true, false, not, ◌&&◌, ◌||◌, Option, none, some, List, [], ◌∷◌, ◌++◌, map,
  arith, ltb, leb, ◌==◌, if◌then◌else◌, lt→ltb, ltb→lt, ltb→le, leb→le, eq→==, ==→eq, Bool-cases,
  length, get_elem?, get_or, set, replicate, take, drop, length-append, length-set,
  length-replicate, get_elem?-eq-get_or, get_or-set, get_or-append, set-set, set-get_or, Outcome,
  ok, panic, fault, hang, ◌>>=◌, ◌>>◌, assert, from_option, load, store, load-ok, store-ok, Yields,
  Yields->>=, Yields-map, holds_below, holds_below→test,
}
use k210_os.Fat32.Sector.{Disk}
use k210_os.Fat32.{Volume, u32}
use k210_os.Fat32.Entry.{Dirent, eread, ewrite}
use k210_os.FileTable.{File, fd_none, fd_pipe, fd_entry, fd_device}
use k210_os.Pipe.{Pipe, Ended, done, failed, asleep, pipe_read, pipe_write}

-- What the caller gets: the value of the call, -1, or a sleep with this much done.
pub data Answer {ℓ} (A : Type ℓ) : Type ℓ where
  returned : A → Answer A
  refused : Answer A
  sleeps : A → Answer A

-- The objects behind the open files, by the addresses that the files hold; `devices` is whatever
-- state the drivers keep.
pub record Objects {ℓ} (S : Type ℓ) : Type ℓ where
  pub pipes : ℕ → Pipe
  pub entries : ℕ → Dirent
  pub disk : Disk
  pub devices : S

-- `struct devsw`, none for NULL: from the address and the count, `read` gives the bytes for the
-- caller and `write` the return value, none for -1.
pub record Devsw {ℓ} (S : Type ℓ) : Type ℓ where
  pub read : Option (ℕ → ℕ → S → Outcome (Option (List ℕ) × S))
  pub write : Option (ℕ → ℕ → S → Outcome (Option ℕ × S))

-- NDEV
abbrev pub ndev : ℕ
ndev = 10

-- The bytes at the addresses from `address` on, as copyin2 brings them one by one.
unfoldable pub source_bytes : (ℕ → ℕ → Option (List ℕ)) → ℕ → ℕ → List (Option ℕ)
source_bytes copyin address zero = []
source_bytes copyin address (suc n) =
    elim (copyin address 1) [ none ↦ none | some bytes ↦ get_elem? bytes 0 ]
    ∷ source_bytes copyin (address + 1) n

-- An answer with one more thing beside it, from a call's value that is none for -1.
abbrev answer {ℓ} : {A : Type ℓ} → Option A → Answer A
answer none = refused
answer (some x) = returned x

module _ {ℓ} {S : Type ℓ} where
  abbrev pub put_pipe : Objects S → ℕ → Pipe → Objects S
  put_pipe o a p = record o { pipes = λ i. if i == a then p else o.pipes i }

  abbrev pub put_dirent : Objects S → ℕ → Dirent → Disk → Objects S
  put_dirent o a e d = record o { entries = λ i. if i == a then e else o.entries i; disk = d }

  abbrev pub from_pipe : {A : Type 0} → File → Objects S → Ended A → Answer A × File × Objects S
  from_pipe f o (done x p) = (returned x, f, put_pipe o f.pipe p)
  from_pipe f o (failed p) = (refused, f, put_pipe o f.pipe p)
  from_pipe f o (asleep x p) = (sleeps x, f, put_pipe o f.pipe p)

  abbrev reader : Option (Devsw S) → Option (ℕ → ℕ → S → Outcome (Option (List ℕ) × S))
  reader none = none
  reader (some dev) = dev.read

  abbrev writer : Option (Devsw S) → Option (ℕ → ℕ → S → Outcome (Option ℕ × S))
  writer none = none
  writer (some dev) = dev.write

  -- `devsw[major]`, none where the number is refused
  unfoldable pub device : List (Devsw S) → ℕ → Option (Devsw S)
  device devsw major = if leb ndev major then none else get_elem? devsw major

  -- The FD_DEVICE case of fileread.
  unfoldable pub read_device :
      List (Devsw S) → File → ℕ → ℕ → Objects S → Outcome (Answer (List ℕ) × File × Objects S)
  read_device devsw f address n o = elim (reader (device devsw f.major)) [
    | none ↦ ok (refused, f, o)
    | some read ↦ read address n o.devices >>= λ r. ok (answer r.0, f, record o { devices = r.1 })
  ]

  -- and of filewrite
  unfoldable pub write_device :
      List (Devsw S) → File → ℕ → ℕ → Objects S → Outcome (Answer ℕ × File × Objects S)
  write_device devsw f address n o = elim (writer (device devsw f.major)) [
    | none ↦ ok (refused, f, o)
    | some write ↦ write address n o.devices >>= λ r. ok (answer r.0, f, record o { devices = r.1 })
  ]

  -- The FD_ENTRY case of fileread.
  unfoldable pub read_entry :
      Volume
      → (ℕ → ℕ → Bool)
      → File
      → ℕ
      → ℕ
      → Objects S
      → Outcome (Answer (List ℕ) × File × Objects S)
  read_entry fat copyout f address n o =
      eread fat copyout (o.entries f.ep) address f.off n o.disk >>= λ r.
      ok (returned r.0, record f { off = u32 (f.off + length r.0) }, put_dirent o f.ep r.1 r.2)

  -- and of filewrite: the value is the count or -1, whatever less was written
  unfoldable pub write_entry :
      Volume
      → (ℕ → ℕ → Option (List ℕ))
      → File
      → ℕ
      → ℕ
      → Objects S
      → Outcome (Answer ℕ × File × Objects S)
  write_entry fat copyin f address n o =
      ewrite fat copyin (o.entries f.ep) address f.off n o.disk >>= λ r.
      let o' : Objects S = put_dirent o f.ep r.1 r.2 in
      elim r.0 [
        | none ↦ ok (refused, f, o')
        | some tot ↦
            if tot == n
            then ok (returned n, record f { off = u32 (f.off + n) }, o')
            else ok (refused, f, o')
      ]

  -- The caller is the task `pid`, `killed` if it is a zombie; `copyout` says whether so many bytes
  -- reach its address.
  unfoldable pub fileread :
      Volume
      → List (Devsw S)
      → ℕ
      → Bool
      → (ℕ → ℕ → Bool)
      → File
      → ℕ
      → ℕ
      → Objects S
      → Outcome (Answer (List ℕ) × File × Objects S)
  fileread fat devsw pid killed copyout f address n o =
      let go : Outcome (Answer (List ℕ) × File × Objects S) = elim f.type [
        | fd_none ↦ panic
        | fd_pipe ↦ pipe_read pid killed (λ i. copyout (address + i) 1) (o.pipes f.pipe) n >>= λ r.
            ok (from_pipe f o r)
        | fd_device ↦ read_device devsw f address n o
        | fd_entry ↦ read_entry fat copyout f address n o
      ] in
      if f.readable then go else ok (refused, f, o)

  -- `copyin` gives so many bytes from an address.
  unfoldable pub filewrite :
      Volume
      → List (Devsw S)
      → ℕ
      → Bool
      → (ℕ → ℕ → Option (List ℕ))
      → File
      → ℕ
      → ℕ
      → Objects S
      → Outcome (Answer ℕ × File × Objects S)
  filewrite fat devsw pid killed copyin f address n o =
      let go : Outcome (Answer ℕ × File × Objects S) = elim f.type [
        | fd_none ↦ panic
        | fd_pipe ↦
            ok (
              from_pipe f o
                (pipe_write pid killed (o.pipes f.pipe) (source_bytes copyin address n)))
        | fd_device ↦ write_device devsw f address n o
        | fd_entry ↦ write_entry fat copyin f address n o
      ] in
      if f.writable then go else ok (refused, f, o)

-- The loop of fdalloc on the descriptors from `fd` on.
unfoldable pub fd_from : ℕ → List (Option ℕ) → Option ℕ
fd_from fd [] = none
fd_from fd (x ∷ xs) =
    let rest : Option ℕ = fd_from (fd + 1) xs in elim x [ none ↦ some fd | some f ↦ rest ]

-- fdalloc on the NOFILE descriptors of the caller, for the file at position `f`; none for -1.
unfoldable pub fdalloc : ℕ → List (Option ℕ) → Option ℕ × List (Option ℕ)
fdalloc f ofile = elim (fd_from 3 (drop 3 ofile)) [
  | none ↦ (none, ofile)
  | some fd ↦ (some fd, set ofile fd (some f))
]

unfoldable pub fdalloc2 : ℕ → ℕ → List (Option ℕ) → Outcome (Option ℕ × List (Option ℕ))
fdalloc2 f newfd ofile = load ofile newfd >>= λ old. elim old [
  | none ↦ ok (some newfd, set ofile newfd (some f))
  | some g ↦ ok (none, ofile)
]
