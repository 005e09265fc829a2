-- ===== src/UserMemory/Tests.antt =====
-- A page that is mapped, whose neighbour is not.
use k210_os.Prelude.{◌+◌, ◌*◌, ◌≡◌, arith}
use k210_os.PageTable.{Memory, put_word}
use k210_os.UserMemory.{copyin2}
use k210_os.UserMemory.Copying.{user_bytes, copyin2-eq}

-- tables in pages 1, 2 and 3, and page 5 of the address space in page 9
abbrev memory : Memory
memory =
    put_word (put_word (put_word (λ ppn i. 0) (1, 0) (2 * 1024 + 1)) (2, 0) (3 * 1024 + 1)) (3, 5)
      (9 * 1024 + 7)

copyin2-eq_example : copyin2 memory 1 20486 3 ≡ user_bytes memory 1 20486 3
copyin2-eq_example = copyin2-eq memory 1 20486 3 (omega arith)
