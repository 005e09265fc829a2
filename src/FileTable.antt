-- ===== src/FileTable.antt =====
-- src/fs_file.c: the table of open files and its reference counts.
pub mod Access
pub mod Counting
mod Tests
use k210_os.Prelude.{
  ℕ, zero, suc, ◌+◌, ◌-◌, ◌*◌, ◌/◌, ◌%◌, ◌^◌, ◌<◌, ◌≤◌, ◌≡◌, ◌≢◌, ◌↔◌, ◌⊎◌, inl, inr, refl, sym, ap,
  ◌∙◌, min, max, Bool, true, false, not, ◌&&◌, ◌||◌, Option, none, some, List, [], ◌∷◌, ◌++◌, map,
  arith, ltb, leb, ◌==◌, if◌then◌else◌, lt→ltb, ltb→lt, ltb→le, leb→le, eq→==, ==→eq, Bool-cases,
  length, get_elem?, get_or, set, replicate, take, drop, length-append, length-set,
  length-replicate, get_elem?-eq-get_or, get_or-set, get_or-append, set-set, set-get_or, Outcome,
  ok, panic, fault, hang, ◌>>=◌, ◌>>◌, assert, from_option, load, store, load-ok, store-ok, Yields,
  Yields->>=, Yields-map, holds_below, holds_below→test,
}

pub data FileType : Type 0 where
  fd_none : FileType
  fd_pipe : FileType
  fd_entry : FileType
  fd_device : FileType

-- `struct file`; `pipe` and `ep` are the addresses that it holds, and `ref` is an `int` in 32 bits.
pub record File : Type 0 where
  pub type : FileType
  pub ref : ℕ
  pub readable : Bool
  pub writable : Bool
  pub pipe : ℕ
  pub ep : ℕ
  pub off : ℕ
  pub major : ℕ

-- what memset leaves of a file
abbrev pub zero_file : File
zero_file = record {
  type = fd_none;
  ref = 0;
  readable = false;
  writable = false;
  pipe = 0;
  ep = 0;
  off = 0;
  major = 0;
}

-- the files that fileinit opens on the console
abbrev pub console_file : File
console_file = record zero_file {
  major = 1;
  ref = 1;
  type = fd_device;
  writable = true;
  readable = true;
}

-- NFILE
abbrev pub nfile : ℕ
nfile = 128

unfoldable pub fileinit : List File
fileinit = set (set (set (replicate nfile zero_file) 0 console_file) 1 console_file) 2 console_file

-- The `for` of filealloc from index `i` on: the index, or none for NULL.
unfoldable pub find_free : ℕ → List File → Option ℕ
find_free i [] = none
find_free i (f ∷ fs) =
    let rest : Option ℕ = find_free (i + 1) fs in if f.ref == 0 then some i else rest

unfoldable pub filealloc : List File → Option ℕ × List File
filealloc t = elim (find_free 0 t) [
  | some i ↦ (some i, set t i (record (get_or t i zero_file) { ref = 1 }))
  | none ↦ (none, t)
]

-- `ref < 1` and `ref > 0` of an `int`
abbrev pub is_unused : ℕ → Bool
is_unused ref = ref == 0 || leb (2 ^ 31) ref

-- An `int` that has passed its greatest value wraps around.
unfoldable pub filedup : List File → ℕ → Outcome (List File)
filedup t i = do
  f ← load t i
  if is_unused f.ref then panic else store t i (record f { ref = (f.ref + 1) % 2 ^ 32 })

-- What fileclose goes on to: nothing, pipeclose with the pipe and `writable`, or eput.
pub data Released : Type 0 where
  nothing : Released
  close_pipe : ℕ → Bool → Released
  put_entry : ℕ → Released

unfoldable pub release_file : File → Released
release_file f = elim f.type [
  | fd_none ↦ nothing
  | fd_pipe ↦ close_pipe f.pipe f.writable
  | fd_entry ↦ put_entry f.ep
  | fd_device ↦ nothing
]

unfoldable pub fileclose : List File → ℕ → Outcome (Released × List File)
fileclose t i = do
  f ← load t i
  let ref : ℕ = (f.ref + 2 ^ 32 - 1) % 2 ^ 32
  let count_down : Outcome (Released × List File) =
      (if not (is_unused ref)
        then (store t i (record f { ref = ref }) >>= λ t'. ok (nothing, t'))
        else (store t i (record f { ref = 0; type = fd_none }) >>= λ t'. ok (release_file f, t')))
  if is_unused f.ref then panic else count_down
