-- ===== src/WorkingSet.antt =====
-- kern/memory_manager.c: the working sets of an environment, and the time stamps of LRU in
-- kern/sched.c.
pub mod Count
pub mod Find
pub mod Tables
use os_memory_management.Base.{
  ℕ, zero, suc, ◌+◌, ◌-◌, ◌*◌, ◌/◌, ◌%◌, ◌^◌, Bool, true, false, ◌&&◌, Option, none, some, ltb, leb,
  ◌==◌, if◌then◌else◌, update, Run, ok, fault, out_of_fuel, ◌>>=◌, ◌>>◌, guard,
}
use os_memory_management.Mmu.{page_size, user_top, round_down}

-- `struct WorkingSetElement`
pub record Element : Type 0 where
  pub va : ℕ
  pub empty : ℕ
  pub time_stamp : ℕ

-- The members of `struct Env` for its working sets: ptr_pageWorkingSet with page_WS_max_size
-- elements, __ptr_tws, and the two indices.
pub record Env : Type 0 where
  pub pages : ℕ → Element
  pub page_max : ℕ
  pub page_last : ℕ
  pub tables : ℕ → Element
  pub table_last : ℕ

-- `__TWS_MAX_SIZE`
abbrev pub table_max : ℕ
table_max = 50

-- What a cleared element holds.
abbrev pub cleared : Element
cleared = record { va = 0; empty = 1; time_stamp = 0 }

-- The element for an address, as `set_entry` writes it.
abbrev pub entered : ℕ → Element
entered va = record { va = va; empty = 0; time_stamp = 0x80000000 }

-- `PAGE_SIZE*1024`
abbrev pub table_size : ℕ
table_size = 4194304

-- The loops over a working set: how many of `n` elements are in use, and the first of `n` elements
-- from `i` on whose rounded address is `va`.
unfoldable pub count_used : ℕ → (ℕ → Element) → ℕ
count_used zero ws = 0
count_used (suc n) ws = count_used n ws + (if (ws n).empty == 0 then 1 else 0)

unfoldable pub find_va : ℕ → ℕ → ℕ → ℕ → (ℕ → Element) → Option ℕ
find_va zero i unit va ws = none
find_va (suc n) i unit va ws =
    let rest = find_va n (i + 1) unit va ws in
    if round_down (ws i).va unit == va then some i else rest

-- env_page_ws_get_size
unfoldable pub page_get_size : Env → ℕ
unfolding count_used
page_get_size e = count_used e.page_max e.pages

-- env_page_ws_clear_entry
unfoldable pub page_clear_entry : ℕ → Env → Run Env
page_clear_entry i e =
    if ltb i e.page_max then ok (record e { pages = update e.pages i cleared }) else fault

-- env_page_ws_invalidate
unfoldable pub page_invalidate : ℕ → Env → Run Env
unfolding find_va page_clear_entry
page_invalidate va e = elim (find_va e.page_max 0 page_size (round_down va page_size) e.pages) [
  | none ↦ ok e
  | some i ↦ page_clear_entry i e
]

-- env_page_ws_set_entry
unfoldable pub page_set_entry : ℕ → ℕ → Env → Run Env
page_set_entry i va e =
    if ltb i e.page_max && ltb va user_top
    then ok (record e { pages = update e.pages i (entered (round_down va page_size)) })
    else fault

-- env_page_ws_get_virtual_address
unfoldable pub page_get_va : ℕ → Env → Run ℕ
page_get_va i e = if ltb i e.page_max then ok (round_down (e.pages i).va page_size) else fault

-- env_page_ws_get_time_stamp
unfoldable pub page_get_time_stamp : ℕ → Env → Run ℕ
page_get_time_stamp i e = if ltb i e.page_max then ok (e.pages i).time_stamp else fault

-- env_page_ws_is_entry_empty
unfoldable pub page_is_entry_empty : ℕ → Env → ℕ
page_is_entry_empty i e = (e.pages i).empty

-- env_table_ws_get_size
unfoldable pub table_get_size : Env → ℕ
unfolding count_used
table_get_size e = count_used table_max e.tables

-- env_table_ws_clear_entry
unfoldable pub table_clear_entry : ℕ → Env → Run Env
table_clear_entry i e =
    if ltb i table_max then ok (record e { tables = update e.tables i cleared }) else fault

-- env_table_ws_invalidate
unfoldable pub table_invalidate : ℕ → Env → Run Env
unfolding find_va table_clear_entry
table_invalidate va e = elim (find_va table_max 0 table_size (round_down va table_size) e.tables) [
  | none ↦ ok e
  | some i ↦ table_clear_entry i e
]

-- env_table_ws_set_entry
unfoldable pub table_set_entry : ℕ → ℕ → Env → Run Env
table_set_entry i va e =
    if ltb i table_max && ltb va user_top
    then ok (record e { tables = update e.tables i (entered (round_down va table_size)) })
    else fault

-- env_table_ws_get_virtual_address
unfoldable pub table_get_va : ℕ → Env → Run ℕ
table_get_va i e = if ltb i table_max then ok (round_down (e.tables i).va table_size) else fault

-- env_table_ws_get_time_stamp
unfoldable pub table_get_time_stamp : ℕ → Env → Run ℕ
table_get_time_stamp i e = if ltb i table_max then ok (e.tables i).time_stamp else fault

-- env_table_ws_is_entry_empty
unfoldable pub table_is_entry_empty : ℕ → Env → ℕ
table_is_entry_empty i e = (e.tables i).empty

-- addTableToTableWorkingSet: round robin over the table working set.
unfoldable pub add_table : ℕ → Env → Env
add_table va e = record e {
  tables =
      update e.tables e.table_last
        (record { va = round_down va table_size; empty = 0; time_stamp = 0 });
  table_last = (e.table_last + 1) % 2 ^ 32 % table_max;
}
