-- ===== src/Boot.antt =====
-- kern/memory_manager.c before the paging is on: the allocation of memory, and the page tables that the
-- kernel maps its own part of the address space with. kern/helpers.h and kern/helpers.c: the static
-- addresses of the kernel, and check_va2pa. The directory is a function of the index; the tables are in
-- `words`, a function of the number of a word in physical memory.
pub mod Tables
pub mod Mapped
pub mod Checked
use os_memory_management.Base.{
  ℕ, zero, suc, ◌+◌, ◌-◌, ◌*◌, ◌/◌, ◌%◌, ◌^◌, Bool, true, false, Option, none, some, ltb, ◌==◌,
  if◌then◌else◌, update, Run, ok, fault, out_of_fuel, ◌>>=◌,
}
use os_memory_management.Mmu.{
  page_size, kernel_base, add32, sub32, round_up, pdx, ptx, ppn, is_present, extract_address,
}

-- `ptr_free_mem` and the linker's `end_of_kernel`, the page directory, memory, and number_of_frames
pub record Boot : Type 0 where
  pub free_mem : ℕ
  pub end_of_kernel : ℕ
  pub dir : ℕ → ℕ
  pub words : ℕ → ℕ
  pub count : ℕ

-- boot_allocate_space, where memory is allocated from, and the whole
abbrev pub next_free : Boot → ℕ
next_free s = if s.free_mem == 0 then s.end_of_kernel else s.free_mem

unfoldable pub boot_allocate_space : ℕ → Boot → ℕ × Boot
boot_allocate_space size s =
    let p = round_up (next_free s) page_size in (p, record s { free_mem = add32 p size })

-- STATIC_KERNEL_PHYSICAL_ADDRESS and STATIC_KERNEL_VIRTUAL_ADDRESS
abbrev pub static_kernel_physical_address : ℕ → Run ℕ
static_kernel_physical_address kva = if ltb kva kernel_base then fault else ok (kva - kernel_base)

abbrev pub static_kernel_virtual_address : ℕ → Boot → Run ℕ
static_kernel_virtual_address pa s =
    if ltb (ppn pa) s.count then ok (add32 pa kernel_base) else fault

-- CONSTRUCT_ENTRY with PERM_PRESENT, for an address divisible by 4096 and permissions below 4096
abbrev pub present_entry : ℕ → ℕ → ℕ
present_entry pa perm = pa + (if is_present perm then perm else perm + 1)

-- boot_get_page_table: the pointer to the table, or NULL. PERM_WRITEABLE is 2.
unfoldable pub boot_get_page_table : ℕ → Bool → Boot → Run (Option ℕ × Boot)
unfolding boot_allocate_space
boot_get_page_table va create s =
    let phys = extract_address (s.dir (pdx va)) in
    static_kernel_virtual_address phys s >>= (λ ptr.
      if phys == 0
      then (if create
          then (let (p, s1) = boot_allocate_space page_size s in
              static_kernel_physical_address p >>= (λ pa.
                ok (some p, record s1 { dir = update s1.dir (pdx va) (present_entry pa 2) })))
          else ok (none, s))
      else ok (some ptr, s))

-- The word of a table that a pointer of the kernel points to
abbrev pub word_of : ℕ → ℕ → ℕ
word_of ptr index = sub32 ptr kernel_base / 4 + index

-- The assignment to an entry of the table; there is none behind NULL.
abbrev pub set_word : Option ℕ → ℕ → ℕ → Boot → Run Boot
set_word none index e s = fault
set_word (some ptr) index e s = ok (record s { words = update s.words (word_of ptr index) e })

-- boot_map_range, from the offset `i` on
unfoldable pub boot_map_loop : ℕ → ℕ → ℕ → ℕ → ℕ → ℕ → Boot → Run Boot
unfolding boot_get_page_table
boot_map_loop zero i va size pa perm s = out_of_fuel
boot_map_loop (suc fuel) i va size pa perm s = elim (ltb i size) [
  | false ↦ ok s
  | true ↦ boot_get_page_table va true s >>= (λ r.
      set_word r.0 (ptx va) (present_entry pa perm) r.1 >>= (λ s1.
        boot_map_loop fuel (add32 i page_size) (add32 va page_size) size (add32 pa page_size) perm
          s1))
]

unfoldable pub boot_map_range : ℕ → ℕ → ℕ → ℕ → ℕ → Boot → Run Boot
unfolding boot_map_loop
boot_map_range fuel va size pa perm s = boot_map_loop fuel 0 va size pa perm s

-- check_va2pa: `~0` where the page is not mapped
unfoldable pub check_va2pa : ℕ → Boot → Run ℕ
check_va2pa va s =
    if is_present (s.dir (pdx va))
    then static_kernel_virtual_address (extract_address (s.dir (pdx va))) s >>= (λ p.
      let e = s.words (word_of p (ptx va)) in
      ok (if is_present e then extract_address e else 2 ^ 32 - 1))
    else ok (2 ^ 32 - 1)
