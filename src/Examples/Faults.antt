-- ===== src/Examples/Faults.antt =====
-- kern/trap.c and kern/memory_manager.c at concrete working sets.
use os_memory_management.Base.{
  ℕ, ◌≡◌, zero, suc, ◌+◌, ◌*◌, ◌<◌, refl, [], ◌++◌, arith, update, Returns, Option, some,
}
use os_memory_management.Mmu.{page_size, round_down}
use os_memory_management.WorkingSet.{
  Env, cleared, entered, page_invalidate, page_get_size, count_used,
}
use os_memory_management.WorkingSet.Find.{FirstOf, Removed, page_invalidate-Removed}
use os_memory_management.PageFault.{
  State, lru, clock, read_ok, page_fault_handler, clock_scan, clock_fuel, lru_scan,
}
use os_memory_management.PageFault.Lru.{LruChoice, lru_scan_lem}
use os_memory_management.PageFault.Clock.{
  page_of, PagesDiffer, SecondChance, clock_scan-SecondChance,
}
use os_memory_management.PageFault.Slot.{FirstEmpty}
use os_memory_management.PageFault.Handler.{
  Entered, Replaced, Choice, removed, requests, page_fault_handler-room, page_fault_handler-full,
}

-- Three elements: two pages in use, and room for one, or three pages in use.
abbrev two_pages : Env
two_pages = record {
  pages = update (update (λ i. cleared) 0 (entered 0x1000)) 1 (entered 0x2000);
  page_max = 3;
  page_last = 1;
  tables = λ i. cleared;
  table_last = 0;
}

abbrev three_pages : Env
three_pages = record two_pages { pages = update two_pages.pages 2 (entered 0x3000) }

abbrev state : Env → State
state e = record { env = e; pte = update (λ a. 0x27) 0x3000 0x47; actions = [] }

page_at : (i : ℕ) → i < 3 → page_of three_pages i ≡ page_size * (i + 1)
unfolding round_down
page_at zero lt = refl
page_at (suc zero) lt = refl
page_at (suc (suc zero)) lt = refl
page_at (suc (suc (suc i))) lt = absurd (omega arith)

two_pages-size : page_get_size two_pages ≡ 2
unfolding page_get_size count_used
two_pages-size = refl

three_pages-size : page_get_size three_pages ≡ 3
unfolding page_get_size count_used
three_pages-size = refl

three_pages-PagesDiffer : PagesDiffer three_pages
three_pages-PagesDiffer i j li lj ne same = omega (arith, page_at i li, page_at j lj)

lru_scan_example :
    LruChoice three_pages.pages 1000000000 0 3 1 (lru_scan 3 0 1 1000000000 three_pages.pages)
lru_scan_example = lru_scan_lem 3 0 1 1000000000 three_pages.pages

clock_scan_example :
    Returns
      (SecondChance three_pages (state three_pages).pte)
      (clock_scan (clock_fuel three_pages) 1 three_pages (state three_pages).pte)
clock_scan_example =
    clock_scan-SecondChance three_pages (state three_pages).pte (omega arith)
      three_pages-PagesDiffer

room_example :
    Returns
      (λ s'.
        (i : ℕ) × FirstEmpty two_pages 1 i
        × Entered (state two_pages) 0x5000 0x4010 i s'
        × (s'.actions ≡ [] ++ requests read_ok 0x4010))
      (page_fault_handler lru (some 0x5000) read_ok 0x4010 (state two_pages))
room_example =
    page_fault_handler-room 0x5000 0x4010 (omega arith) lru read_ok (state two_pages) tt
      (omega arith) (omega (arith, two_pages-size))

full_example :
    Returns
      (λ s'.
        (r : ℕ × (ℕ → ℕ)) × Choice clock (state three_pages) r
        × Replaced (state three_pages) r.1 0x5000 0x4010 r.0 s'
        × (s'.actions
            ≡ removed r.0 (record (state three_pages) { pte = r.1 }) ++ requests read_ok 0x4010))
      (page_fault_handler clock (some 0x5000) read_ok 0x4010 (state three_pages))
full_example =
    page_fault_handler-full 0x5000 0x4010 (omega arith) clock read_ok (state three_pages) tt
      (omega arith) three_pages-PagesDiffer (omega (arith, three_pages-size))

invalidate_example :
    Returns
      (λ e'.
        (o : Option ℕ) × FirstOf two_pages.pages page_size (round_down 0x2345 page_size) 0 3 o
        × Removed o two_pages e')
      (page_invalidate 0x2345 two_pages)
invalidate_example = page_invalidate-Removed 0x2345 two_pages
