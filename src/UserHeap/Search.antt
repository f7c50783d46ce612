-- ===== src/UserHeap/Search.antt =====
-- The steps of the searches of malloc at a page of the heap, and what the searches promise.
use os_memory_management.Base.{ℕ, ◌/◌, ◌<◌, ◌≡◌, arith, true, false, Option, none, some, ltb, ok}
use os_memory_management.Mmu.{page_size, user_heap_start, user_heap_max, user_heap_pages, sub32}
use os_memory_management.UserHeap.{Scan, read_tracker}
use os_memory_management.UserHeap.Valid.{FreeRange, NoneBefore, page_addr, AtPage}

pub read_tracker-ok :
    (t : ℕ → ℕ) (s : Scan) (c r : ℕ)
    → c < user_heap_pages
    → AtPage t s c r
    → read_tracker t s.i ≡ ok (t c)
unfolding read_tracker
read_tracker-ok t s c r lt v =
    let e : sub32 s.i user_heap_start / page_size ≡ c = omega arith in
    let b : ltb c user_heap_pages ≡ true = ground arith in rw (e, b)

pub in_heap :
    (t : ℕ → ℕ) (s : Scan) (c r : ℕ)
    → c < user_heap_pages
    → AtPage t s c r
    → ltb s.i user_heap_max ≡ true
in_heap t s c r lt v = ground arith

pub past_heap :
    (t : ℕ → ℕ) (s : Scan) (c r : ℕ)
    → ¬ (c < user_heap_pages)
    → AtPage t s c r
    → (ltb s.i user_heap_max ≡ false) × (c ≡ user_heap_pages)
past_heap t s c r lt v = (ground arith, omega arith)

-- What FIRST FIT promises: the lowest `n` free pages, or none where there are none.
abbrev pub FirstFit : (ℕ → ℕ) → ℕ → Option ℕ → Type 0
FirstFit t n none = (a : ℕ) → ¬ FreeRange t a n
FirstFit t n (some a) = (b : ℕ) × (a ≡ page_addr b) × FreeRange t b n × NoneBefore t n b

-- What every search promises that starts at the heap's first page: `n` free pages, or none where
-- there are none.
abbrev pub Fit : (ℕ → ℕ) → ℕ → Option ℕ → Type 0
Fit t n none = (a : ℕ) → ¬ FreeRange t a n
Fit t n (some a) = (b : ℕ) × (a ≡ page_addr b) × FreeRange t b n
