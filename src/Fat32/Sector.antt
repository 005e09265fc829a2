-- ===== src/Fat32/Sector.antt =====
-- Sectors of bytes, and little-endian numbers in them.
use k210_os.Prelude.{
  ℕ, zero, suc, ◌+◌, ◌*◌, ◌/◌, ◌%◌, ◌^◌, ◌<◌, ◌≤◌, ◌≡◌, ◌≢◌, ◌⊎◌, ◌&&◌, List, [], ◌∷◌, arith, ◌==◌,
  if◌then◌else◌,
}

-- BSIZE
abbrev pub bsize : ℕ
bsize = 512

-- the byte of a sector at an offset
abbrev pub Disk : Type 0
Disk = ℕ → ℕ → ℕ

abbrev pub read_byte : Disk → ℕ → ℕ → ℕ
read_byte d sec off = d sec off % 256

unfoldable pub read16 : Disk → ℕ → ℕ → ℕ
read16 d sec off = read_byte d sec off + 256 * read_byte d sec (off + 1)

unfoldable pub read32 : Disk → ℕ → ℕ → ℕ
read32 d sec off =
    read_byte d sec off
    + 256 * read_byte d sec (off + 1)
    + 65536 * read_byte d sec (off + 2)
    + 16777216 * read_byte d sec (off + 3)

abbrev pub write_byte : Disk → ℕ → ℕ → ℕ → Disk
write_byte d sec off v = λ s o. if s == sec && o == off then v % 256 else d s o

unfoldable pub write32 : Disk → ℕ → ℕ → ℕ → Disk
write32 d sec off v =
    write_byte
      (write_byte (write_byte (write_byte d sec off v) sec (off + 1) (v / 256)) sec (off + 2)
        (v / 65536))
      sec (off + 3) (v / 16777216)

-- the `m` bytes of a sector from an offset on
unfoldable pub chunk : Disk → ℕ → ℕ → ℕ → List ℕ
chunk d sec off zero = []
chunk d sec off (suc m) = read_byte d sec off ∷ chunk d sec (off + 1) m

unfoldable pub write_chunk : Disk → ℕ → ℕ → List ℕ → Disk
write_chunk d sec off [] = d
write_chunk d sec off (x ∷ xs) = write_chunk (write_byte d sec off x) sec (off + 1) xs

-- memset of a whole sector
abbrev pub zero_sector : Disk → ℕ → Disk
zero_sector d sec = λ s o. if s == sec then 0 else d s o

-- What was written is read back.
pub read32-write32_self :
    (d : Disk) (sec off v : ℕ) → v < 2 ^ 32 → read32 (write32 d sec off v) sec off ≡ v
unfolding read32 write32
read32-write32_self d sec off v h = ground arith

-- A number that does not overlap the one written keeps its value.
pub read32-write32_apart :
    (d : Disk) (sec off v s o : ℕ)
    → (s ≢ sec) ⊎ ((off + 4 ≤ o) ⊎ (o + 4 ≤ off))
    → read32 (write32 d sec off v) s o ≡ read32 d s o
unfolding read32 write32
read32-write32_apart d sec off v s o h = ground arith

pub read32-zero_sector :
    (d : Disk) (sec s o : ℕ) → s ≢ sec → read32 (zero_sector d sec) s o ≡ read32 d s o
unfolding read32
read32-zero_sector d sec s o h = ground arith

pub read32-lt : (d : Disk) (sec off : ℕ) → read32 d sec off < 2 ^ 32
unfolding read32
read32-lt d sec off = omega arith
