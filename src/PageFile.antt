-- ===== src/PageFile.antt =====
-- kern/file_manager.c: the page file, where pages and page tables are that are not in memory. A directory
-- and a table of the page file are pages from kmalloc; what kmalloc returns, call after call, is a list of
-- answers. The transfers of the disk, which are port input and output, succeed.
pub mod Apart
pub mod Keeps
pub mod Reach
pub mod Created
pub mod RoundTrip
use os_memory_management.Base.{
  ℕ, zero, suc, ◌+◌, ◌-◌, ◌*◌, ◌/◌, ◌%◌, ◌^◌, Bool, true, false, ◌&&◌, List, [], ◌∷◌, Option, none,
  some, ltb, leb, ◌==◌, if◌then◌else◌, update, length, Run, ok, fault, guard, ◌>>=◌, ◌>>◌,
}
use os_memory_management.Mmu.{page_size, kernel_base, user_top, pdx, ppn, round_down}

-- The contents of a page, or of a sector: of a page, the sector at every index.
abbrev pub Page : Type 0
Page = ℕ → ℕ

-- disk_free_frame_list; the disk's sectors; for every environment, whether there is a directory, and the
-- tables in it; the disk frame of page `p` at `p` and that of page table `i` at `2 ^ 20 + i`; whether there
-- is a directory of tables; the answers of kmalloc.
pub record PageFile : Type 0 where
  pub free : List ℕ
  pub disk : ℕ → ℕ
  pub dir : ℕ → Bool
  pub table : ℕ → ℕ → Bool
  pub entry : ℕ → ℕ → ℕ
  pub table_dir : ℕ → Bool
  pub memory : List Bool

-- The results 0, E_NO_PAGE_FILE_SPACE, and E_PAGE_NOT_EXIST_IN_PF or E_TABLE_NOT_EXIST_IN_PF.
pub data Code : Type 0 where
  success : Code
  no_page_file_space : Code
  not_exist_in_pf : Code

-- `PAGE_FILE_START_SECTOR`, `SECTOR_PER_PAGE` and `PAGES_PER_FILE`
abbrev pub start_sector : ℕ
start_sector = 40960

abbrev pub sectors_per_page : ℕ
sectors_per_page = 8

abbrev pub pages_per_file : ℕ
pages_per_file = 133120

-- read_disk_page and write_disk_page
abbrev pub read_disk_page : ℕ → PageFile → Page
read_disk_page dfn s i = s.disk (start_sector + dfn * sectors_per_page + i)

unfoldable pub write_disk_page : ℕ → Page → PageFile → PageFile
write_disk_page dfn page s = record s {
  disk = λ i.
      if leb (start_sector + dfn * sectors_per_page) i
        && ltb i (start_sector + dfn * sectors_per_page + sectors_per_page)
      then page (i - (start_sector + dfn * sectors_per_page))
      else s.disk i;
}

-- The loop of initialize_disk_page_file, with `n` frames left from `i` on.
unfoldable pub insert_frames : ℕ → ℕ → List ℕ → List ℕ
insert_frames zero i free = free
insert_frames (suc n) i free = insert_frames n (i + 1) (i ∷ free)

unfoldable pub initialize_disk_page_file : PageFile → PageFile
initialize_disk_page_file s = record s { free = insert_frames (pages_per_file - 1) 1 [] }

-- allocate_disk_frame
unfoldable pub allocate_disk_frame : PageFile → Option (ℕ × PageFile)
allocate_disk_frame s = elim s.free [ [] ↦ none | f ∷ fs ↦ some (f, record s { free = fs }) ]

-- free_disk_frame
unfoldable pub free_disk_frame : ℕ → PageFile → PageFile
free_disk_frame dfn s = if dfn == 0 then s else record s { free = dfn ∷ s.free }

abbrev pub set_entry : ℕ → ℕ → ℕ → PageFile → PageFile
set_entry e k dfn s = record s { entry = update s.entry e (update (s.entry e) k dfn) }

-- kmalloc of a page: whether it gives one.
unfoldable pub kmalloc_page : PageFile → Bool × PageFile
kmalloc_page s = elim s.memory [ [] ↦ (false, s) | b ∷ bs ↦ (b, record s { memory = bs }) ]

-- get_disk_page_directory: false is E_NO_VM.
unfoldable pub get_disk_page_directory : ℕ → PageFile → Bool × PageFile
unfolding kmalloc_page
get_disk_page_directory e s =
    let (given, s1) = kmalloc_page s in
    if s.dir e
    then (true, s)
    else if given
    then (true, record s1 { dir = update s1.dir e true; table = update s1.table e (λ i. false) })
    else (false, s1)

-- The new table of page table index `i`, filled with 0.
abbrev pub add_table : ℕ → ℕ → PageFile → PageFile
add_table e i s = record s {
  table = update s.table e (update (s.table e) i true);
  entry = update s.entry e (λ k. if k / 1024 == i then 0 else s.entry e k);
}

-- get_disk_page_table: whether there is a table. Reading a directory that is NULL is a fault.
unfoldable pub get_disk_page_table : ℕ → ℕ → Bool → PageFile → Run (Bool × PageFile)
unfolding kmalloc_page
get_disk_page_table e va create s =
    let (given, s1) = kmalloc_page s in
    guard (s.dir e)
    >> (if s.table e (pdx va)
        then ok (true, s)
        else if create
        then if given then ok (true, add_table e (pdx va) s1) else ok (false, s1)
        else ok (false, s))

-- The disk frame of an entry, allocated where there is none.
unfoldable pub entry_frame : ℕ → ℕ → PageFile → Option ℕ × PageFile
unfolding allocate_disk_frame
entry_frame e k s =
    if s.entry e k == 0
    then elim (allocate_disk_frame s) [
      | none ↦ (none, s)
      | some (dfn, s1) ↦ (some dfn, set_entry e k dfn s1)
    ]
    else (some (s.entry e k), s)

-- The disk frame of a page, with its directory and table created.
unfoldable pub page_frame : ℕ → ℕ → PageFile → Run (Option ℕ × PageFile)
unfolding get_disk_page_directory get_disk_page_table entry_frame
page_frame e va s =
    guard (ltb va kernel_base)
    >> (get_disk_page_table e va true (get_disk_page_directory e s).1
        >>= (λ r. guard r.0 >> ok (entry_frame e (ppn va) r.1)))

-- What is done with the frame: the page is written to it.
abbrev pub fill_frame : Page → Option ℕ × PageFile → Code × PageFile
fill_frame page (none, s) = (no_page_file_space, s)
fill_frame page (some dfn, s) = (success, write_disk_page dfn page s)

abbrev pub leave_frame : Option ℕ × PageFile → Code × PageFile
leave_frame (none, s) = (no_page_file_space, s)
leave_frame (some dfn, s) = (success, s)

-- pf_add_env_page
unfoldable pub pf_add_env_page : ℕ → ℕ → Page → PageFile → Run (Code × PageFile)
unfolding page_frame write_disk_page
pf_add_env_page e va page s = page_frame e va s >>= (λ r. ok (fill_frame page r))

-- pf_add_empty_env_page, given the contents of ptr_zero_page
unfoldable pub pf_add_empty_env_page : Page → ℕ → ℕ → Bool → PageFile → Run (Code × PageFile)
unfolding pf_add_env_page
pf_add_empty_env_page zero_page e va by_zero s =
    if by_zero
    then pf_add_env_page e va zero_page s
    else page_frame e va s >>= (λ r. ok (leave_frame r))

-- pf_update_env_page, given the contents of the modified frame. Its mapping at USER_LIMIT during the
-- transfer is left out.
unfoldable pub pf_update_env_page : ℕ → ℕ → Page → PageFile → Run (Code × PageFile)
unfolding get_disk_page_directory get_disk_page_table write_disk_page
pf_update_env_page e va page s =
    guard (ltb va kernel_base)
    >> (get_disk_page_table e va false (get_disk_page_directory e s).1 >>= (λ r.
        let s1 = r.1 in
        if r.0
        then if s1.entry e (ppn va) == 0
          then ok (not_exist_in_pf, s1)
          else ok (success, write_disk_page (s1.entry e (ppn va)) page s1)
        else ok (not_exist_in_pf, s1)))

-- The page in the frame of an entry, if there is one.
abbrev pub entry_page : ℕ → ℕ → PageFile → Option Page
entry_page e k s = if s.entry e k == 0 then none else some (read_disk_page (s.entry e k) s)

-- pf_read_env_page: the page it reads, or E_PAGE_NOT_EXIST_IN_PF. That it clears PERM_MODIFIED of the page
-- in the environment's own table is left out.
unfoldable pub pf_read_env_page : ℕ → ℕ → PageFile → Run (Option Page)
unfolding get_disk_page_table round_down
pf_read_env_page e va s =
    let va1 = round_down va page_size in
    if s.dir e
    then get_disk_page_table e va1 false s
      >>= (λ r. if r.0 then ok (entry_page e (ppn va1) s) else ok none)
    else ok none

abbrev pub free_entry : ℕ → ℕ → PageFile → PageFile
free_entry e k s = free_disk_frame (s.entry e k) (set_entry e k 0 s)

-- pf_remove_env_page
unfoldable pub pf_remove_env_page : ℕ → ℕ → PageFile → Run PageFile
unfolding get_disk_page_table free_disk_frame
pf_remove_env_page e va s =
    if s.dir e
    then get_disk_page_table e va false s
      >>= (λ r. if r.0 then ok (free_entry e (ppn va) s) else ok s)
    else ok s

-- Free the `n` entries from `k` on.
unfoldable pub free_entries : ℕ → ℕ → ℕ → PageFile → PageFile
unfolding free_disk_frame
free_entries e zero k s = s
free_entries e (suc n) k s = free_entries e n (k + 1) (free_entry e k s)

-- The outer loop of pf_free_env, with `n` tables left from `i` on.
unfoldable pub free_tables : ℕ → ℕ → ℕ → PageFile → PageFile
unfolding free_entries
free_tables e zero i s = s
free_tables e (suc n) i s =
    let rest = λ (s1 : PageFile). free_tables e n (i + 1) s1 in
    let s1 = free_entries e 1024 (i * 1024) s in
    if s.table e i
    then rest (record s1 { table = update s1.table e (update (s1.table e) i false) })
    else rest s

-- `__pf_remove_env_all_tables`
unfoldable pub pf_remove_env_all_tables : ℕ → PageFile → PageFile
pf_remove_env_all_tables e s = if s.table_dir e then free_entries e (pdx user_top) (2 ^ 20) s else s

-- pf_free_env
unfoldable pub pf_free_env : ℕ → PageFile → Run PageFile
pf_free_env e s =
    let s1 = free_tables e (pdx user_top) 0 s in
    let s2 = record s1 { dir = update s1.dir e false } in
    let s3 = pf_remove_env_all_tables e s2 in
    guard (s.dir e)
    >> (if s2.table_dir e
        then ok (record s3 { table_dir = update s3.table_dir e false })
        else ok s2)

-- get_disk_table_directory: false is E_NO_VM.
unfoldable pub get_disk_table_directory : ℕ → PageFile → Bool × PageFile
unfolding kmalloc_page
get_disk_table_directory e s =
    let (given, s1) = kmalloc_page s in
    if s.table_dir e
    then (true, s)
    else if given
    then (
      true,
      record s1 {
        table_dir = update s1.table_dir e true;
        entry = update s1.entry e (λ k. if leb (2 ^ 20) k then 0 else s1.entry e k);
      },
    )
    else (false, s1)

-- `__pf_write_env_table`
unfoldable pub pf_write_env_table : ℕ → ℕ → Page → PageFile → Run (Code × PageFile)
unfolding get_disk_table_directory entry_frame write_disk_page
pf_write_env_table e va page s =
    let (found, s1) = get_disk_table_directory e s in
    guard (ltb va kernel_base)
    >> (guard found >> ok (fill_frame page (entry_frame e (2 ^ 20 + pdx va) s1)))

-- `__pf_read_env_table`
unfoldable pub pf_read_env_table : ℕ → ℕ → PageFile → Option Page
pf_read_env_table e va s = if s.table_dir e then entry_page e (2 ^ 20 + pdx va) s else none

-- `__pf_remove_env_table`
unfoldable pub pf_remove_env_table : ℕ → ℕ → PageFile → PageFile
unfolding free_disk_frame
pf_remove_env_table e va s = if s.table_dir e then free_entry e (2 ^ 20 + pdx va) s else s

-- The entries of `n` from `k` on that have a disk frame.
unfoldable pub count_entries : (ℕ → ℕ) → ℕ → ℕ → ℕ
count_entries entry zero k = 0
count_entries entry (suc n) k = (if entry k == 0 then 0 else 1) + count_entries entry n (k + 1)

-- The loop of pf_calculate_allocated_pages, with `n` tables left from `i` on.
unfoldable pub count_tables : ℕ → ℕ → ℕ → PageFile → ℕ
unfolding count_entries
count_tables e zero i s = 0
count_tables e (suc n) i s =
    (if s.table e i then count_entries (s.entry e) 1024 (i * 1024) else 0)
    + count_tables e n (i + 1) s

-- pf_calculate_allocated_pages
unfoldable pub pf_calculate_allocated_pages : ℕ → PageFile → Run ℕ
pf_calculate_allocated_pages e s = guard (s.dir e) >> ok (count_tables e (pdx user_top) 0 s)

-- pf_calculate_free_frames
unfoldable pub pf_calculate_free_frames : PageFile → ℕ
pf_calculate_free_frames s = length s.free
