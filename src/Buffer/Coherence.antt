-- ===== src/Buffer/Coherence.antt =====
-- What bread returns is what the disk holds.
use k210_os.Prelude.{
  ℕ, ◌+◌, ◌-◌, ◌%◌, ◌^◌, ◌≡◌, ◌≢◌, inl, inr, refl, ap, ◌∙◌, true, false, Option, none, some, List,
  [], ◌∷◌, arith, ltb, ◌==◌, if◌then◌else◌, ==→eq, Bool-cases, Outcome, ok, panic, fault, hang,
  ◌>>=◌, Yields,
}
use k210_os.Semaphore.{Semaphore, sem_wait, wait_loop, set_pid, sem_hold}
use k210_os.Buffer.{
  Sectors, Buf, Cache, put_buf, holds, find_cached, find_unused, lock_buf, pick_buf, fill_buf, bget,
  disk_read, disk_write, bread, bwrite,
}

-- A buffer that is valid holds the bytes of its sector.
abbrev pub Reflects : Sectors → ℕ → Buf → Type 0
Reflects d first b = b.valid ≡ true → (o : ℕ) → b.bytes o ≡ d ((b.sectorno + first) % 2 ^ 32) o

abbrev pub IsCoherent : Sectors → ℕ → Cache → Type 0
IsCoherent d first c = (i : ℕ) → Reflects d first (c.bufs i)

put_buf-IsCoherent :
    (d : Sectors) (first : ℕ) (c : Cache) (i : ℕ) (b : Buf)
    → IsCoherent d first c
    → Reflects d first b
    → IsCoherent d first (put_buf c i b)
put_buf-IsCoherent d first c i b h hb j = elim (Bool-cases (j == i)) [
  | inl e ↦ rw e hb
  | inr e ↦ rw e (h j)
]

-- what holds of every index of a list
pub data AllIn (P : ℕ → Type 0) : List ℕ → Type 0 where
  nil : AllIn P []
  cons : {i : ℕ} {is : List ℕ} → P i → AllIn P is → AllIn P (i ∷ is)

abbrev Cached : (ℕ → Buf) → ℕ → ℕ → List ℕ → Option ℕ → Type 0
Cached bufs dev sectorno order none = AllIn (λ i. holds (bufs i) dev sectorno ≡ false) order
Cached bufs dev sectorno order (some i) = holds (bufs i) dev sectorno ≡ true

find_cached-Cached :
    (bufs : ℕ → Buf) (dev sectorno : ℕ) (order : List ℕ)
    → Cached bufs dev sectorno order (find_cached bufs dev sectorno order)
unfolding find_cached
find_cached-Cached bufs dev sectorno [] = nil
find_cached-Cached bufs dev sectorno (i ∷ is) = elim (Bool-cases (holds (bufs i) dev sectorno)) [
  | inl h ↦ rw h h
  | inr h ↦
      rw h (further h (find_cached bufs dev sectorno is) (find_cached-Cached bufs dev sectorno is))
]
  where
    further :
        holds (bufs i) dev sectorno ≡ false
        → (r : Option ℕ) → Cached bufs dev sectorno is r
        → Cached bufs dev sectorno (i ∷ is) r
    further h none all = cons h all
    further h (some j) found = found

abbrev Unused : (ℕ → Buf) → List ℕ → Option ℕ → Type 0
Unused bufs order none = AllIn (λ i. (bufs i).refcnt ≢ 0) order
Unused bufs order (some i) = (bufs i).refcnt ≡ 0

find_unused-Unused : (bufs : ℕ → Buf) (order : List ℕ) → Unused bufs order (find_unused bufs order)
unfolding find_unused
find_unused-Unused bufs [] = nil
find_unused-Unused bufs (i ∷ is) = from (find_unused bufs is) (find_unused-Unused bufs is)
  where
    from :
        (r : Option ℕ)
        → Unused bufs is r
        → Unused bufs
            (i ∷ is)
            (elim r [ some j ↦ some j | none ↦ if (bufs i).refcnt == 0 then some i else none ])
    from (some j) free = free
    from none used = elim (Bool-cases ((bufs i).refcnt == 0)) [
      | inl free ↦ rw free (==→eq (bufs i).refcnt 0 free)
      | inr busy ↦ let ne : (bufs i).refcnt ≢ 0 = ground arith in rw busy (cons ne used)
    ]

-- the lock of a buffer once the caller has it
abbrev locked : Option ℕ → Semaphore → Semaphore
locked task s = set_pid task (record s { value = (s.value + 2 ^ 32 - 1) % 2 ^ 32 })

-- sem_wait counts down without a test that can hold, so the caller comes back.
lock_buf-ok :
    (task : Option ℕ) (c : Cache) (i : ℕ)
    → lock_buf task c i
      ≡ ok (i, put_buf c i (record (c.bufs i) { lock = locked task (c.bufs i).lock }))
unfolding lock_buf sem_wait wait_loop
lock_buf-ok task c i =
    let never : ltb (((c.bufs i).lock.value + 2 ^ 32 - 1) % 2 ^ 32) 0 ≡ false = ground arith in
    rw (never, lock_buf)

put_buf_self : (c : Cache) (i : ℕ) (b : Buf) → (put_buf c i b).bufs i ≡ b
put_buf_self c i b = let same : (i == i) ≡ true = ground arith in rw same refl

module _ (d : Sectors) (first : ℕ) (c : Cache) (dev sectorno : ℕ) where
  -- What bread may come to: a buffer with the bytes that the disk holds for the sector, all valid
  -- buffers being right; or a panic when no buffer holds the sector and all are in use.
  pub data BufRead : Outcome (ℕ × Cache) → Type 0 where
    got :
        {i : ℕ} {c' : Cache}
        → IsCoherent d first c'
        → (c'.bufs i).dev ≡ dev
        → (c'.bufs i).sectorno ≡ sectorno
        → ((o : ℕ) → (c'.bufs i).bytes o ≡ d ((sectorno + first) % 2 ^ 32) o)
        → BufRead (ok (i, c'))
    no_buffers :
        AllIn (λ i. holds (c.bufs i) dev sectorno ≡ false) c.order
        → AllIn (λ i. (c.bufs i).refcnt ≢ 0) c.order
        → BufRead panic

  data Picked : Outcome (ℕ × Cache) → Type 0 where
    picked :
        {i : ℕ} {c' : Cache}
        → IsCoherent d first c'
        → holds (c'.bufs i) dev sectorno ≡ true
        → Picked (ok (i, c'))
    nothing :
        AllIn (λ i. holds (c.bufs i) dev sectorno ≡ false) c.order
        → AllIn (λ i. (c.bufs i).refcnt ≢ 0) c.order
        → Picked panic

pick_buf-Picked :
    (d : Sectors) (first : ℕ) (c : Cache) (dev sectorno : ℕ)
    → IsCoherent d first c
    → Picked d first c dev sectorno (pick_buf c dev sectorno)
unfolding pick_buf
pick_buf-Picked d first c dev sectorno h =
    from (find_cached c.bufs dev sectorno c.order) (find_cached-Cached c.bufs dev sectorno c.order)
  where
    recycled :
        AllIn (λ i. holds (c.bufs i) dev sectorno ≡ false) c.order
        → (r : Option ℕ) → Unused c.bufs c.order r
        → Picked d first c dev sectorno (elim r [
          | some i ↦ ok (
            i,
            put_buf c i
                (record (c.bufs i) { dev = dev; sectorno = sectorno; valid = false; refcnt = 1 }),
          )
          | none ↦ panic
        ])
    recycled out none used = nothing out used
    recycled out (some i) free =
        let b : Buf = record (c.bufs i) {
          dev = dev;
          sectorno = sectorno;
          valid = false;
          refcnt = 1;
        } in
        let same : holds b dev sectorno ≡ true = ground arith in
        picked (put_buf-IsCoherent d first c i b h (λ no. cc)) (rw (put_buf_self c i b) same)

    from :
        (r : Option ℕ)
        → Cached c.bufs dev sectorno c.order r
        → Picked d first c dev sectorno (elim r [
          | some i ↦
              ok (i, put_buf c i (record (c.bufs i) { refcnt = ((c.bufs i).refcnt + 1) % 2 ^ 32 }))
          | none ↦ elim (find_unused c.bufs c.order) [
            | some i ↦ ok (
              i,
              put_buf c i
                  (record (c.bufs i) { dev = dev; sectorno = sectorno; valid = false; refcnt = 1 }),
            )
            | none ↦ panic
          ]
        ])
    from (some i) found =
        let b : Buf = record (c.bufs i) { refcnt = ((c.bufs i).refcnt + 1) % 2 ^ 32 } in
        picked (put_buf-IsCoherent d first c i b h (h i)) (rw (put_buf_self c i b) found)
    from none out = recycled out (find_unused c.bufs c.order) (find_unused-Unused c.bufs c.order)

fill_buf-BufRead :
    (d : Sectors) (first : ℕ) (c c' : Cache) (dev sectorno i : ℕ)
    → IsCoherent d first c'
    → holds (c'.bufs i) dev sectorno ≡ true
    → BufRead d first c dev sectorno (fill_buf d first (i, c'))
unfolding fill_buf disk_read
fill_buf-BufRead d first c c' dev sectorno i h found =
    let same_dev : (c'.bufs i).dev ≡ dev = ground arith in
    let same_sector : (c'.bufs i).sectorno ≡ sectorno = ground arith in
    elim (Bool-cases (c'.bufs i).valid) [
      | inl e ↦ rw e (got h same_dev same_sector (λ o. h i e o ∙ rw same_sector refl))
      | inr e ↦
          let b : Buf = record (c'.bufs i) {
            bytes = d (((c'.bufs i).sectorno + first) % 2 ^ 32);
            valid = true;
          } in
          let self = put_buf_self c' i b in
          rw e (
            got (put_buf-IsCoherent d first c' i b h (λ v o. refl))
              (ap (λ x. x.dev) self ∙ same_dev) (ap (λ x. x.sectorno) self ∙ same_sector)
              (λ o. ap (λ x. x.bytes o) self ∙ rw same_sector refl))
    ]

-- bread on a cache whose valid buffers hold the bytes of their sectors: either it returns a buffer
-- with the bytes that the disk has for the sector, and all valid buffers are still right; or it
-- panics, since no buffer holds the sector and each has a user.
pub bread-BufRead :
    (task : Option ℕ) (d : Sectors) (first : ℕ) (c : Cache) (dev sectorno : ℕ)
    → IsCoherent d first c
    → BufRead d first c dev sectorno (bread task d first c dev sectorno)
unfolding bread bget
bread-BufRead task d first c dev sectorno h =
    from (pick_buf c dev sectorno) (pick_buf-Picked d first c dev sectorno h)
  where
    from :
        (r : Outcome (ℕ × Cache))
        → Picked d first c dev sectorno r
        → BufRead d first c dev sectorno
            (r >>= (λ x. lock_buf task x.1 x.0) >>= λ x. fill_buf d first x)
    from panic (nothing out used) = no_buffers out used
    from (ok (i, c')) (picked h' found) =
        let b : Buf = record (c'.bufs i) { lock = locked task (c'.bufs i).lock } in
        rw (lock_buf-ok task c' i) (
          fill_buf-BufRead d first c (put_buf c' i b) dev sectorno i
            (put_buf-IsCoherent d first c' i b h' (h' i)) (rw (put_buf_self c' i b) found))
    from fault x = elim x [ ]
    from hang x = elim x [ ]

-- where the sector of a buffer lies on the card
abbrev pub place : ℕ → Buf → ℕ
place first b = (b.sectorno + first) % 2 ^ 32

-- What bwrite leaves: the sector of the buffer has its bytes, the others are as they were, and
-- every valid buffer is right.
pub record Written (d : Sectors) (first : ℕ) (c : Cache) (i : ℕ) (d' : Sectors) : Type 0 where
  pub there : (o : ℕ) → d' (place first (c.bufs i)) o ≡ (c.bufs i).bytes o
  pub elsewhere : (s o : ℕ) → s ≢ place first (c.bufs i) → d' s o ≡ d s o
  pub coherent : IsCoherent d' first c

-- bwrite of a locked buffer, whatever bytes the caller has put in it, when the other valid buffers
-- are right and none of them holds the same sector: the disk then has those bytes for the sector,
-- has what it had for every other one, and every valid buffer is right.
pub bwrite-Written :
    (task : Option ℕ) (d : Sectors) (first : ℕ) (c : Cache) (i : ℕ)
    → ((j : ℕ) → j ≢ i → Reflects d first (c.bufs j))
    → ((j : ℕ) → (c.bufs j).valid ≡ true → place first (c.bufs j) ≡ place first (c.bufs i) → j ≡ i)
    → sem_hold task (c.bufs i).lock ≡ true
    → Yields (Written d first c i) (bwrite task d first c i)
unfolding bwrite disk_write
bwrite-Written task d first c i others alone held =
    let same : (place first (c.bufs i) == place first (c.bufs i)) ≡ true = ground arith in
    rw held (record {
      there = λ o. rw same refl;
      elsewhere = λ s o ne.
          (let apart : (s == place first (c.bufs i)) ≡ false = ground arith in rw apart refl);
      coherent = λ j v o. elim (Bool-cases (place first (c.bufs j) == place first (c.bufs i))) [
        | inl e ↦
            let one : j ≡ i =
              alone j v (==→eq (place first (c.bufs j)) (place first (c.bufs i)) e) in
            rw e (ap (λ x. (c.bufs x).bytes o) one)
        | inr e ↦ rw e (others j (λ one. cc) v o)
      ];
    })
