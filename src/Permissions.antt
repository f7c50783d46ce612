-- ===== src/Permissions.antt =====
-- kern/memory_manager.c: the flags of the directory and of the page tables' entries of an environment, where
-- a table may be in memory or in the page file. A table of the page file is a function of the index;
-- the page file is read and written without errors.
pub mod Bits
pub mod Entries
use os_memory_management.Base.{
  ℕ, ◌+◌, ◌-◌, ◌*◌, ◌/◌, ◌%◌, ◌^◌, Option, none, some, ltb, ◌==◌, if◌then◌else◌, update, bit_and,
  bit_or, Run, ok, fault, ◌>>=◌,
}
use os_memory_management.Mmu.{
  kernel_base, user_top, add32, pdx, ptx, ppn, is_present, is_used, clear_used, extract_address,
}

-- `env_page_directory`, the words of the kernel's memory by address, virtualAddresses of the kernel's
-- heap, the tables in the page file by directory index, `ptr_temp_page` and number_of_frames
pub record Space : Type 0 where
  pub dir : ℕ → ℕ
  pub memory : ℕ → ℕ
  pub virtual_addresses : ℕ → ℕ
  pub disk : ℕ → Option (ℕ → ℕ)
  pub temp : ℕ → ℕ
  pub count : ℕ

-- pd_is_table_used, pd_set_table_unused and pd_clear_page_dir_entry
unfoldable pub pd_is_table_used : ℕ → Space → ℕ
pd_is_table_used va s = if is_used (s.dir (pdx va)) then 1 else 0

unfoldable pub pd_set_table_unused : ℕ → Space → Space
pd_set_table_unused va s = record s { dir = update s.dir (pdx va) (clear_used (s.dir (pdx va))) }

unfoldable pub pd_clear_page_dir_entry : ℕ → Space → Space
pd_clear_page_dir_entry va s = record s { dir = update s.dir (pdx va) 0 }

-- The kernel's address of a table in memory: kheap_virtual_address for addresses below USER_TOP, and
-- STATIC_KERNEL_VIRTUAL_ADDRESS above it
unfoldable pub table_address : ℕ → Space → Run ℕ
table_address va s =
    let phys = extract_address (s.dir (pdx va)) in
    if ltb va user_top
    then ok (s.virtual_addresses (ppn phys))
    else if ltb (ppn phys) s.count
    then ok (add32 phys kernel_base)
    else fault

-- The assignment to the entry of a page, in memory or in the page file by way of ptr_temp_page. The page
-- file refuses the addresses of the kernel.
unfoldable pub change_entry : ℕ → (ℕ → ℕ) → Space → Run Space
unfolding table_address
change_entry va f s =
    if is_present (s.dir (pdx va))
    then table_address va s >>= (λ t.
      ok (record s { memory = update s.memory (t + 4 * ptx va) (f (s.memory (t + 4 * ptx va))) }))
    else if s.dir (pdx va) == 0
    then fault
    else elim (s.disk (pdx va)) [
      | none ↦ fault
      | some t ↦
          let t1 = update t (ptx va) (f (t (ptx va))) in
          if ltb va kernel_base
          then ok (record s { temp = t1; disk = update s.disk (pdx va) (some t1) })
          else fault
    ]

-- `(e | set) & ~clear`
abbrev pub set_flags : ℕ → ℕ → ℕ → ℕ
set_flags set clear e = bit_and (bit_or e set) (2 ^ 32 - 1 - clear)

-- pt_set_page_permissions and pt_clear_page_table_entry
unfoldable pub pt_set_page_permissions : ℕ → ℕ → ℕ → Space → Run Space
unfolding change_entry
pt_set_page_permissions va set clear s = change_entry va (set_flags set clear) s

unfoldable pub pt_clear_page_table_entry : ℕ → Space → Run Space
unfolding change_entry
pt_clear_page_table_entry va s = change_entry va (λ e. 0) s

-- pt_get_page_permissions
unfoldable pub pt_get_page_permissions : ℕ → Space → Run (ℕ × Space)
unfolding table_address
pt_get_page_permissions va s =
    if is_present (s.dir (pdx va))
    then table_address va s >>= (λ t. ok (bit_and (s.memory (t + 4 * ptx va)) 4095, s))
    else if s.dir (pdx va) == 0
    then ok (0, s)
    else elim (s.disk (pdx va)) [
      | none ↦ fault
      | some t ↦ ok (bit_and (t (ptx va)) 4095, record s { temp = t })
    ]
