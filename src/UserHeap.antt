-- ===== src/UserHeap.antt =====
-- lib/uheap.c: malloc and free of user programs, over the page tracker of the user heap.
pub mod Valid
pub mod Search
pub mod First
pub mod Fit
pub mod Next
pub mod Occupy
pub mod Place
pub mod Malloc
pub mod Free
use os_memory_management.Base.{
  ℕ, zero, suc, ◌+◌, ◌-◌, ◌*◌, ◌/◌, ◌%◌, ◌^◌, Bool, true, false, ◌&&◌, Option, none, some, List, [],
  ◌∷◌, ◌++◌, ltb, leb, ◌==◌, if◌then◌else◌, update, Run, ok, fault, out_of_fuel, ◌>>=◌, ◌>>◌,
}
use os_memory_management.Mmu.{
  page_size, user_heap_start, user_heap_max, user_heap_pages, add32, sub32, mul32, round_up,
}

-- The calls of the kernel that malloc and free make: `sys_allocateMem` and `sys_freeMem`.
pub data Call : Type 0 where
  allocate_mem : ℕ → ℕ → Call
  free_mem : ℕ → ℕ → Call

-- The globals of lib/uheap.c, and the kernel calls made so far. `tracker` is UHeap_Tracker, which
-- holds the number of pages of an allocation at its first page; `addr_of` and `size_of` are the
-- members of sizeOfVAs. `general` is generalAddress.
pub record Heap : Type 0 where
  pub tracker : ℕ → ℕ
  pub addr_of : ℕ → ℕ
  pub size_of : ℕ → ℕ
  pub general : ℕ
  pub calls : List Call

-- The values of `_UHeapPlacementStrategy`, inc/uheap.h.
abbrev pub firstfit : ℕ
firstfit = 1

abbrev pub bestfit : ℕ
bestfit = 2

abbrev pub nextfit : ℕ
nextfit = 3

abbrev pub worstfit : ℕ
worstfit = 4

-- `UHeap_Tracker[(i - USER_HEAP_START)/PAGE_SIZE]`, a fault outside the array.
unfoldable pub read_tracker : (ℕ → ℕ) → ℕ → Run ℕ
read_tracker t i =
    let p = sub32 i user_heap_start / page_size in if ltb p user_heap_pages then ok (t p) else fault

-- The variables of a search; `viable` is minViableSize or maxViableSize, `left` is k.
pub record Scan : Type 0 where
  pub i : ℕ
  pub j : ℕ
  pub current : ℕ
  pub flag : Bool
  pub found : Bool
  pub general : ℕ
  pub viable : ℕ
  pub left : ℕ

-- The two branches of every search at a page whose tracker is 0.
unfoldable pub grow : Scan → Scan
grow s = record s {
  flag = true;
  j = if s.flag then s.j else s.i;
  current = add32 s.current page_size;
  i = add32 s.i page_size;
}

-- The step over an allocation of `n` pages.
unfoldable pub skip : ℕ → Scan → Scan
skip n s = record s { i = add32 s.i (mul32 page_size n); flag = false; current = 0 }

-- Take the run that starts at j.
unfoldable pub take_run : Scan → Scan
take_run s = record s { general = s.j; found = true }

-- After the loop: `if(found == 0 && currentSize >= size) generalAddress=j; else if(found == 0)
-- return NULL;`
unfoldable pub last_run : ℕ → Scan → Option ℕ
last_run size s = if s.found then some s.general else if leb size s.current then some s.j else none

-- At the start of a search j is not initialised: `junk` is what it holds.
unfoldable pub start_scan : ℕ → ℕ → ℕ → Scan
start_scan i junk viable = record {
  i = i;
  j = junk;
  current = 0;
  flag = false;
  found = false;
  general = user_heap_start;
  viable = viable;
  left = user_heap_pages;
}

-- The loop of FIRST FIT.
unfoldable pub first_loop : ℕ → (ℕ → ℕ) → ℕ → Scan → Run Scan
unfolding read_tracker grow skip take_run
first_loop zero t size s = out_of_fuel
first_loop (suc fuel) t size s =
    let free = first_loop fuel t size (grow s) in
    let used = λ (n : ℕ). first_loop fuel t size (skip n s) in
    if ltb s.i user_heap_max
    then read_tracker t s.i
      >>= (λ n. if n == 0 then free else if leb size s.current then ok (take_run s) else used n)
    else ok s

-- The loop of BEST FIT and WORST FIT, which differ in what makes a run `better` than the last.
unfoldable pub fit_loop : (ℕ → ℕ → Bool) → ℕ → (ℕ → ℕ) → ℕ → Scan → Run Scan
unfolding read_tracker grow skip take_run
fit_loop better zero t size s = out_of_fuel
fit_loop better (suc fuel) t size s =
    let free = fit_loop better fuel t size (grow s) in
    let used = λ (n : ℕ). fit_loop better fuel t size (
      skip n (
        if leb size s.current && better s.viable s.current
        then record (take_run s) { viable = s.current }
        else s)) in
    if ltb s.i user_heap_max
    then read_tracker t s.i >>= (λ n. if n == 0 then free else used n)
    else ok s

-- The end of an iteration of NEXT FIT.
unfoldable pub wrap : Scan → Scan
wrap s =
    if leb user_heap_max s.i then record s { current = 0; flag = false; i = user_heap_start } else s

-- The loop of NEXT FIT, over `left` pages.
unfoldable pub next_loop : ℕ → (ℕ → ℕ) → ℕ → Scan → Run Scan
unfolding read_tracker grow skip take_run wrap
next_loop zero t size s = out_of_fuel
next_loop (suc fuel) t size s =
    let grown = record (grow s) { left = sub32 s.left 1 } in
    let free = next_loop fuel t size (wrap grown) in
    let used =
      λ (n : ℕ). next_loop fuel t size (wrap (record (skip n s) { left = sub32 s.left n })) in
    if s.left == 0
    then ok s
    else read_tracker t s.i >>= (λ n.
      if n == 0
      then (if leb size grown.current then ok (take_run grown) else free)
      else if leb size s.current
      then ok (take_run s)
      else if leb size 0
      then ok (take_run (record (skip n s) { left = sub32 s.left n }))
      else used n)

-- Enough for every search of a heap whose allocations are not empty.
abbrev pub scan_fuel : ℕ
scan_fuel = 131074

-- Where each strategy places `size` bytes, a multiple of the page size: `none` for NULL. The last
-- case is a strategy number that the kernel never sets: malloc then takes generalAddress as it is.
unfoldable pub place : ℕ → ℕ → ℕ → ℕ → Heap → Run (Option ℕ)
place fuel strategy junk size h =
    if strategy == nextfit
    then next_loop fuel h.tracker size (start_scan h.general junk 0) >>= (λ s. ok (last_run size s))
    else if strategy == firstfit
    then first_loop fuel h.tracker size (start_scan user_heap_start junk 0)
      >>= (λ s. ok (last_run size s))
    else if strategy == bestfit
    then fit_loop (λ v c. ltb c v) fuel h.tracker size
        (start_scan user_heap_start junk (sub32 user_heap_max user_heap_start))
      >>= (λ s. ok (last_run size s))
    else if strategy == worstfit
    then fit_loop (λ v c. ltb v c) fuel h.tracker size (start_scan user_heap_start junk 0)
      >>= (λ s. ok (last_run size s))
    else ok (some h.general)

-- What malloc records once it has a place, and its result.
unfoldable pub occupy : ℕ → ℕ → Heap → Heap
occupy size a h =
    let p = sub32 a user_heap_start / page_size in
    record {
      tracker = update h.tracker p (size / page_size);
      addr_of = update h.addr_of p a;
      size_of = update h.size_of p size;
      general = if leb user_heap_max (add32 a size) then user_heap_start else a;
      calls = h.calls ++ allocate_mem a size ∷ [];
    }

-- The end of malloc. A search that fails leaves generalAddress, which all strategies but NEXT FIT
-- have reset.
unfoldable pub finish : ℕ → ℕ → Option ℕ → Heap → Option ℕ × Heap
finish strategy size none h =
    (none, record h { general = if strategy == nextfit then h.general else user_heap_start })
finish strategy size (some a) h = (some a, occupy size a h)

-- `malloc`, with the strategy that the kernel reports and what the variable j holds at its start.
unfoldable pub malloc : ℕ → ℕ → ℕ → Heap → Run (Option ℕ × Heap)
malloc strategy junk size0 h =
    let size = round_up size0 page_size in
    place scan_fuel strategy junk size h >>= (λ r. ok (finish strategy size r h))

-- The loop of `free` over sizeOfVAs: the first index whose address is `va`.
unfoldable pub find_addr : ℕ → ℕ → ℕ → (ℕ → ℕ) → Option ℕ
find_addr zero i va addr_of = none
find_addr (suc n) i va addr_of =
    let rest = find_addr n (i + 1) va addr_of in if addr_of i == va then some i else rest

-- The body of that loop at the index found. The write to UHeap_Tracker is a fault outside the
-- array.
unfoldable pub free_at : ℕ → ℕ → Heap → Run Heap
free_at i va h =
    let p = sub32 (h.addr_of i) user_heap_start / page_size in
    if ltb p user_heap_pages
    then ok (record h {
      tracker = update h.tracker p 0;
      addr_of = update h.addr_of i 0;
      size_of = update h.size_of i 0;
      calls = h.calls ++ free_mem va (h.size_of i) ∷ [];
    })
    else fault

-- `free`
unfoldable pub free : ℕ → Heap → Run Heap
free va h = elim (find_addr user_heap_pages 0 va h.addr_of) [
  | none ↦ ok h
  | some i ↦ free_at i va h
]
