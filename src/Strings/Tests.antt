-- ===== src/Strings/Tests.antt =====
-- Overlapping blocks, and two strings that part after a NUL.
use k210_os.Prelude.{ℕ, ◌<◌, ◌≡◌, ◌==◌, if◌then◌else◌, arith}
use k210_os.Strings.{Bytes, memmove}
use k210_os.Strings.Move.{moved, memmove-moved}

abbrev memory : Bytes
memory = λ k. if k == 10 then 65 else if k == 20 then 65 else if k == 22 then 66 else 0

memory_bytes : (k : ℕ) → memory k < 256
memory_bytes k = ground arith

memmove-moved_example : memmove memory 12 10 8 15 ≡ moved memory 12 10 8 15
memmove-moved_example = memmove-moved memory 12 10 8 15
