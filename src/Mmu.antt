-- ===== src/Mmu.antt =====
-- inc/mmu.h, inc/memlayout.h and inc/types.h: addresses, page tables' entries, and the arithmetic of
-- uint32.
use os_memory_management.Base.{ℕ, ◌+◌, ◌-◌, ◌*◌, ◌/◌, ◌%◌, ◌^◌, Bool, ◌==◌}

abbrev pub word : ℕ
word = 2 ^ 32

abbrev pub page_size : ℕ
page_size = 4096

abbrev pub user_heap_start : ℕ
user_heap_start = 0x80000000

abbrev pub user_heap_max : ℕ
user_heap_max = 0xA0000000

-- `(USER_HEAP_MAX - USER_HEAP_START) / PAGE_SIZE`
abbrev pub user_heap_pages : ℕ
user_heap_pages = 131072

abbrev pub kernel_base : ℕ
kernel_base = 0xF0000000

abbrev pub kernel_heap_start : ℕ
kernel_heap_start = 0xF6000000

abbrev pub kernel_heap_max : ℕ
kernel_heap_max = 0xFFFFF000

-- `UENVS`, which is USER_TOP
abbrev pub user_top : ℕ
user_top = 0xEEC00000

abbrev pub add32 : ℕ → ℕ → ℕ
add32 a b = (a + b) % 2 ^ 32

abbrev pub sub32 : ℕ → ℕ → ℕ
sub32 a b = (a + 2 ^ 32 - b) % 2 ^ 32

abbrev pub mul32 : ℕ → ℕ → ℕ
mul32 a b = (a * b) % 2 ^ 32

-- `ROUNDDOWN(a, n)` and `ROUNDUP(a, n)`
unfoldable pub round_down : ℕ → ℕ → ℕ
round_down a n = sub32 a (a % n)

unfoldable pub round_up : ℕ → ℕ → ℕ
unfolding round_down
round_up a n = round_down (sub32 (add32 a n) 1) n

abbrev pub pdx : ℕ → ℕ
pdx a = a / 2 ^ 22 % 1024

abbrev pub ptx : ℕ → ℕ
ptx a = a / 2 ^ 12 % 1024

abbrev pub ppn : ℕ → ℕ
ppn a = a / 2 ^ 12

-- `EXTRACT_ADDRESS(entry)`: the entry without its low twelve bits
abbrev pub extract_address : ℕ → ℕ
extract_address e = e - e % 4096

-- `e & PERM_USED`, `e & ~PERM_USED`, and `e & PERM_MODIFIED`: bits 5 and 6.
abbrev pub is_used : ℕ → Bool
is_used e = e / 32 % 2 == 1

abbrev pub clear_used : ℕ → ℕ
clear_used e = e - e / 32 % 2 * 32

abbrev pub is_modified : ℕ → Bool
is_modified e = e / 64 % 2 == 1

-- `PERM_PRESENT`, bit 0
abbrev pub is_present : ℕ → Bool
is_present e = e % 2 == 1
