-- ===== src/PageFault.antt =====
-- kern/trap.c: the page fault handler and the replacement algorithms FIFO, LRU and CLOCK, and the
-- time stamps of kern/sched.c that LRU goes by.
--
-- What the handler asks of the pager and of the page file is recorded as a list of actions. The page
-- table entries of the environment are a function of the page's address: this is the entry that
-- get_page_table reaches, the table being in memory.
pub mod Lru
pub mod Clock
pub mod Slot
pub mod Handler
use os_memory_management.Base.{
  ℕ, zero, suc, ◌+◌, ◌-◌, ◌*◌, ◌/◌, ◌%◌, ◌^◌, Bool, true, false, not, ◌&&◌, Option, none, some,
  List, [], ◌∷◌, ◌++◌, ltb, leb, ◌==◌, if◌then◌else◌, update, Run, ok, fault, out_of_fuel, ◌>>=◌,
  ◌>>◌, guard,
}
use os_memory_management.Mmu.{
  page_size, user_top, is_used, clear_used, is_modified, round_down, pdx,
}
use os_memory_management.WorkingSet.{
  Element, Env, page_get_size, page_get_va, page_get_time_stamp, page_clear_entry, page_set_entry,
  table_max,
}

-- kern/trap.h: the values of `_PageRepAlgoType`.
pub data Algorithm : Type 0 where
  lru clock fifo modified_clock : Algorithm

-- The result of pf_read_env_page: 0, E_PAGE_NOT_EXIST_IN_PF, or a disk error.
pub data ReadStatus : Type 0 where
  read_ok not_in_page_file disk_error : ReadStatus

-- pf_update_env_page, unmap_frame, allocate_frame with map_frame, pf_read_env_page and
-- pf_add_empty_env_page.
pub data Action : Type 0 where
  write_back : ℕ → Action
  unmap : ℕ → Action
  map_new : ℕ → Action
  read_page : ℕ → Action
  add_empty_page : ℕ → Action

pub record State : Type 0 where
  pub env : Env
  pub pte : ℕ → ℕ
  pub actions : List Action

abbrev pub act : Action → State → State
act a s = record s { actions = s.actions ++ a ∷ [] }

-- inc/memlayout.h: USTACKTOP, and USTACKBOTTOM with the product of USER_PAGES_WS_MAX modulo 2^32.
abbrev pub ustack_top : ℕ
ustack_top = 0xEEBFE000

abbrev pub ustack_bottom : ℕ
ustack_bottom = 0xA0031000

-- The loop of LRU: `n` elements are left from `i` on, `best` and `min_time` are idxToReplace and
-- minTime.
unfoldable pub lru_scan : ℕ → ℕ → ℕ → ℕ → (ℕ → Element) → ℕ
lru_scan zero i best min_time ws = best
lru_scan (suc n) i best min_time ws =
    let earlier = ltb (ws i).time_stamp min_time in
    lru_scan n (i + 1) (if earlier then i else best)
      (if earlier then (ws i).time_stamp else min_time) ws

-- The loop of CLOCK from index `i` on: clear the used bits until a page is met that has none.
unfoldable pub clock_scan : ℕ → ℕ → Env → (ℕ → ℕ) → Run (ℕ × (ℕ → ℕ))
clock_scan zero i e pte = out_of_fuel
clock_scan (suc fuel) i e pte =
    let rest =
      λ (va : ℕ). clock_scan fuel ((i + 1) % e.page_max) e (update pte va (clear_used (pte va))) in
    page_get_va i e >>= (λ va. if is_used (pte va) then rest va else ok (i, pte))

-- More than two rounds of the hand.
abbrev pub clock_fuel : Env → ℕ
clock_fuel e = 2 * e.page_max + 1

-- The victim of the algorithm in a full working set, and the entries after the choice. The handler has no
-- branch for modified CLOCK, so that the index stays page_last_WS_index.
unfoldable pub choose : Algorithm → State → Run (ℕ × (ℕ → ℕ))
choose lru s = ok (lru_scan s.env.page_max 0 s.env.page_last 1000000000 s.env.pages, s.pte)
choose fifo s = ok (s.env.page_last, s.pte)
choose clock s = clock_scan (clock_fuel s.env) s.env.page_last s.env s.pte
choose modified_clock s = ok (s.env.page_last, s.pte)

-- Remove the page at index `i`, written back if it is modified.
unfoldable pub evict : ℕ → State → Run State
evict i s = page_get_va i s.env >>= (λ va.
    let s1 = if is_modified (s.pte va) then act (write_back va) s else s in
    page_clear_entry i s.env
    >>= (λ e. ok (record (act (unmap va) s1) { env = e; pte = update s.pte va 0 })))

-- `while(!curenv->__uptr_pws[idxToReplace].empty)`: `__uptr_pws` is the address at which the user sees the array
-- `ptr_pageWorkingSet`, and the elements there are taken to be those of the array.
unfoldable pub find_empty : ℕ → ℕ → Env → Run ℕ
find_empty zero i e = out_of_fuel
find_empty (suc fuel) i e =
    let rest = find_empty fuel ((i + 1) % e.page_max) e in
    if (e.pages i).empty == 0 then rest else ok i

-- The entry that map_frame writes for the frame at `pa`: PERM_USER, PERM_WRITEABLE, PERM_PRESENT and
-- PERM_USED.
abbrev pub user_entry : ℕ → ℕ
user_entry pa = pa + 0x27

-- The end of the handler: bring the page in, and enter it at index `i`. The new frame's address is
-- `frame`, and where no frame is free allocate_frame panics, which is a fault. `status` is what
-- pf_read_env_page returns. The panic of a page that is neither in the page file nor on the stack is
-- a fault, too.
unfoldable pub bring_in : Option ℕ → ReadStatus → ℕ → ℕ → State → Run State
bring_in none status i va s0 = fault
bring_in (some pa) status i va s0 =
    let mapped =
      act (map_new va)
        (record s0 { pte = update s0.pte (round_down va page_size) (user_entry pa) }) in
    let s = act (read_page va) mapped in
    let placed = λ (s1 : State). page_set_entry i va s1.env >>= (λ e. ok (record s1 { env = e })) in
    let advance = λ (s1 : State).
      ok (record s1 { env = record s1.env { page_last = (i + 1) % s1.env.page_max } }) in
    elim status [
      | read_ok ↦ placed s >>= advance
      | not_in_page_file ↦
          if ltb va ustack_top && leb ustack_bottom va
          then placed (act (add_empty_page va) s) >>= advance
          else fault
      | disk_error ↦ advance s
    ]

-- page_fault_handler
unfoldable pub page_fault_handler : Algorithm → Option ℕ → ReadStatus → ℕ → State → Run State
page_fault_handler algorithm frame status va s =
    let room = λ (i : ℕ) (s1 : State).
      find_empty (s1.env.page_max + 1) i s1.env >>= (λ j. bring_in frame status j va s1) in
    if leb s.env.page_max (page_get_size s.env)
    then choose algorithm s >>= (λ (i, pte). evict i (record s { pte = pte }) >>= (λ s1. room i s1))
    else room s.env.page_last s

-- The loop of update_WS_time_stamps over `n` elements of the page working set.
unfoldable pub age_pages : ℕ → (ℕ → Element) → (ℕ → ℕ) → (ℕ → Element) × (ℕ → ℕ)
age_pages zero ws pte = (ws, pte)
age_pages (suc n) ws0 pte0 =
    let (ws, pte) = age_pages n ws0 pte0 in
    let x = ws n in
    let old = x.time_stamp / 4 in
    let page = round_down x.va page_size in
    if x.empty == 1
    then (ws, pte)
    else if is_used (pte page)
    then (
      update ws n (record x { time_stamp = old % 2 ^ 31 + 2 ^ 31 }),
      update pte page (clear_used (pte page)),
    )
    else (update ws n (record x { time_stamp = old }), pte)

-- The loop over `n` elements of the table working set: the page directory's entries are a function of
-- their index.
unfoldable pub age_tables : ℕ → (ℕ → Element) → (ℕ → ℕ) → (ℕ → Element) × (ℕ → ℕ)
age_tables zero ws pde = (ws, pde)
age_tables (suc n) ws0 pde0 =
    let (ws, pde) = age_tables n ws0 pde0 in
    let x = ws n in
    let old = x.time_stamp / 4 in
    let entry = pde (pdx x.va) in
    if x.empty == 1
    then (ws, pde)
    else if is_used entry
    then (
      update ws n (record x { time_stamp = old % 2 ^ 31 + 2 ^ 31 }),
      update pde (pdx x.va) (clear_used entry),
    )
    else (update ws n (record x { time_stamp = old }), pde)
