-- ===== src/Buffer.antt =====
-- src/fs_buf.c and src/fs_disk.c: the cache of disk sectors. The buffers are the array of the
-- cache, and its linked list is the list of their indices, the most recently used first.
pub mod Coherence
mod Tests
use k210_os.Prelude.{
  ℕ, zero, suc, ◌+◌, ◌-◌, ◌*◌, ◌/◌, ◌%◌, ◌^◌, ◌<◌, ◌≤◌, ◌≡◌, ◌≢◌, ◌↔◌, ◌⊎◌, inl, inr, refl, sym, ap,
  ◌∙◌, min, max, Bool, true, false, not, ◌&&◌, ◌||◌, Option, none, some, List, [], ◌∷◌, ◌++◌, map,
  arith, ltb, leb, ◌==◌, if◌then◌else◌, lt→ltb, ltb→lt, ltb→le, leb→le, eq→==, ==→eq, Bool-cases,
  length, get_elem?, get_or, set, replicate, take, drop, length-append, length-set,
  length-replicate, get_elem?-eq-get_or, get_or-set, get_or-append, set-set, set-get_or, Outcome,
  ok, panic, fault, hang, ◌>>=◌, ◌>>◌, assert, from_option, load, store, load-ok, store-ok, Yields,
  Yields->>=, Yields-map, holds_below, holds_below→test,
}
use k210_os.Semaphore.{
  Semaphore, Waited, acquired, asleep, sem_init, sem_wait, sem_signal, sem_hold,
}

-- the bytes of the sectors of the card
abbrev pub Sectors : Type 0
Sectors = ℕ → ℕ → ℕ

-- `struct buf`, whose links are the order of the cache
pub record Buf : Type 0 where
  pub valid : Bool
  pub dev : ℕ
  pub sectorno : ℕ
  pub refcnt : ℕ
  pub lock : Semaphore
  pub bytes : ℕ → ℕ

-- `bcache` without its spinlock
pub record Cache : Type 0 where
  pub bufs : ℕ → Buf
  pub order : List ℕ

abbrev pub put_buf : Cache → ℕ → Buf → Cache
put_buf c i b = record c { bufs = λ j. if j == i then b else c.bufs j }

-- `~0`
abbrev pub no_sector : ℕ
no_sector = 0xFFFFFFFF

-- The `for` of binit with the rounds left: each buffer goes to the front.
unfoldable pub binit_loop : ℕ → ℕ → Cache → Cache
binit_loop zero i c = c
binit_loop (suc rounds) i c =
    let old : Buf = c.bufs i in
    let fresh : Buf = record old {
      refcnt = 0;
      sectorno = no_sector;
      dev = no_sector;
      lock = sem_init old.lock 1;
    } in
    binit_loop rounds (i + 1) (record (put_buf c i fresh) { order = i ∷ c.order })

unfoldable pub binit : ℕ → (ℕ → Buf) → Cache
binit nbuf bufs = binit_loop nbuf 0 (record { bufs = bufs; order = [] })

-- `b->dev == dev && b->sectorno == sectorno`
abbrev pub holds : Buf → ℕ → ℕ → Bool
holds b dev sectorno = b.dev == dev && b.sectorno == sectorno

-- the first buffer from the front that holds the sector
unfoldable pub find_cached : (ℕ → Buf) → ℕ → ℕ → List ℕ → Option ℕ
find_cached bufs dev sectorno [] = none
find_cached bufs dev sectorno (i ∷ is) =
    let rest : Option ℕ = find_cached bufs dev sectorno is in
    if holds (bufs i) dev sectorno then some i else rest

-- the first one from the back that is not used
unfoldable pub find_unused : (ℕ → Buf) → List ℕ → Option ℕ
find_unused bufs [] = none
find_unused bufs (i ∷ is) = elim (find_unused bufs is) [
  | some j ↦ some j
  | none ↦ if (bufs i).refcnt == 0 then some i else none
]

-- sem_wait on the lock of a buffer; a caller that is put to sleep does not come back.
unfoldable pub lock_buf : Option ℕ → Cache → ℕ → Outcome (ℕ × Cache)
lock_buf task c i =
    let b : Buf = c.bufs i in
    elim (sem_wait task b.lock) [
      | acquired s ↦ ok (i, put_buf c i (record b { lock = s }))
      | asleep s ↦ hang
    ]

-- bget up to the release of the spinlock: the buffer that it picks, with its count raised.
unfoldable pub pick_buf : Cache → ℕ → ℕ → Outcome (ℕ × Cache)
pick_buf c dev sectorno = elim (find_cached c.bufs dev sectorno c.order) [
  | some i ↦ ok (i, put_buf c i (record (c.bufs i) { refcnt = ((c.bufs i).refcnt + 1) % 2 ^ 32 }))
  | none ↦ elim (find_unused c.bufs c.order) [
    | some i ↦ ok (
      i,
      put_buf c i (record (c.bufs i) { dev = dev; sectorno = sectorno; valid = false; refcnt = 1 }),
    )
    | none ↦ panic
  ]
]

unfoldable pub bget : Option ℕ → Cache → ℕ → ℕ → Outcome (ℕ × Cache)
bget task c dev sectorno = pick_buf c dev sectorno >>= λ r. lock_buf task r.1 r.0

-- disk_read and disk_write; `first` is DBRsec, the first sector of the partition.
unfoldable pub disk_read : Sectors → ℕ → Buf → Buf
disk_read d first b = record b { bytes = d ((b.sectorno + first) % 2 ^ 32) }

unfoldable pub disk_write : Sectors → ℕ → Buf → Sectors
disk_write d first b = λ s. if s == (b.sectorno + first) % 2 ^ 32 then b.bytes else d s

-- The `if` of bread.
unfoldable pub fill_buf : Sectors → ℕ → ℕ × Cache → Outcome (ℕ × Cache)
fill_buf d first (i, c) =
    if (c.bufs i).valid
    then ok (i, c)
    else ok (i, put_buf c i (record (disk_read d first (c.bufs i)) { valid = true }))

unfoldable pub bread : Option ℕ → Sectors → ℕ → Cache → ℕ → ℕ → Outcome (ℕ × Cache)
bread task d first c dev sectorno = bget task c dev sectorno >>= λ r. fill_buf d first r

unfoldable pub bwrite : Option ℕ → Sectors → ℕ → Cache → ℕ → Outcome Sectors
bwrite task d first c i =
    if not (sem_hold task (c.bufs i).lock) then panic else ok (disk_write d first (c.bufs i))

-- Taking an index out of the list.
unfoldable pub unlink : ℕ → List ℕ → List ℕ
unlink i [] = []
unlink i (j ∷ js) = if j == i then js else j ∷ unlink i js

unfoldable pub brelse : Option ℕ → Cache → ℕ → Outcome Cache
brelse task c i =
    let b : Buf = c.bufs i in
    let b' : Buf = record b {
      lock = (sem_signal b.lock).1;
      refcnt = (b.refcnt + 2 ^ 32 - 1) % 2 ^ 32;
    } in
    let c' : Cache = put_buf c i b' in
    if not (sem_hold task b.lock)
    then panic
    else if b'.refcnt == 0
    then ok (record c' { order = i ∷ unlink i c.order })
    else ok c'

unfoldable pub bpin : Cache → ℕ → Cache
bpin c i = put_buf c i (record (c.bufs i) { refcnt = ((c.bufs i).refcnt + 1) % 2 ^ 32 })

unfoldable pub bunpin : Cache → ℕ → Cache
bunpin c i = put_buf c i (record (c.bufs i) { refcnt = ((c.bufs i).refcnt + 2 ^ 32 - 1) % 2 ^ 32 })
