-- ===== src/Address.antt =====
-- src/include/mm.h: addresses, page numbers, and the constants of the memory layout.
use k210_os.Prelude.{ℕ, ◌+◌, ◌-◌, ◌*◌, ◌/◌, ◌%◌, ◌^◌, ◌<◌, ◌≡◌, Bool, ◌==◌, arith}

abbrev pub page_size : ℕ
page_size = 4096

-- `uintptr_t` arithmetic
abbrev pub word : ℕ
word = 2 ^ 64

abbrev pub memory_end : ℕ
memory_end = 0x80800000

abbrev pub kernel_stack_size : ℕ
kernel_stack_size = 4096 * 4

-- ULONG_MAX - PAGE_SIZE + 1
abbrev pub trampoline : ℕ
trampoline = word - 1 - page_size + 1

abbrev pub trap_context : ℕ
trap_context = trampoline - page_size

-- `a & (PAGE_SIZE - 1)`
abbrev pub get_offset : ℕ → ℕ
get_offset a = a % page_size

abbrev pub is_aligned : ℕ → Bool
is_aligned a = get_offset a == 0

abbrev pub pa_floor : ℕ → ℕ
pa_floor pa = pa / page_size

abbrev pub pa_ceil : ℕ → ℕ
pa_ceil pa = (pa + page_size - 1) % word / page_size

abbrev pub va_floor : ℕ → ℕ
va_floor va = pa_floor va

abbrev pub va_ceil : ℕ → ℕ
va_ceil va = pa_ceil va

abbrev pub pa2ppn : ℕ → ℕ
pa2ppn pa = pa_floor pa

-- `ppn << PAGE_OFFSET_BITS`
abbrev pub ppn2pa : ℕ → ℕ
ppn2pa ppn = ppn * 2 ^ 12 % word

abbrev pub va2vpn : ℕ → ℕ
va2vpn va = pa2ppn va

abbrev pub vpn2va : ℕ → ℕ
vpn2va vpn = ppn2pa vpn

-- An address is its page's address and its offset, and the address of a page number in range comes
-- back to that number.
pub vpn2va-va2vpn :
    (va vpn : ℕ)
    → va < word
    → vpn < 2 ^ 52
    → (vpn2va (va2vpn va) + get_offset va ≡ va) × (va2vpn (vpn2va vpn) ≡ vpn)
vpn2va-va2vpn va vpn h k = omega arith
