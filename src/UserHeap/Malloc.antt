-- ===== src/UserHeap/Malloc.antt =====
-- malloc of lib/uheap.c: every strategy ends, keeps the heap's invariant and finds free pages.
use mathlib.Core.List.{append-nil}
use os_memory_management.Base.{
  ℕ, ◌+◌, ◌*◌, ◌^◌, ◌≤◌, ◌<◌, ◌≡◌, refl, sym, inl, inr, arith, ◌⊎◌, List, [], ◌∷◌, ◌++◌, Option,
  none, some, Bool-cases, ◌==◌, Returns, returns,
}
use os_memory_management.Mmu.{page_size, user_heap_pages}
use os_memory_management.UserHeap.{
  Call, allocate_mem, occupy, Heap, place, finish, malloc, scan_fuel, firstfit, bestfit, nextfit,
  worstfit,
}
use os_memory_management.UserHeap.Valid.{FreeRange, page_addr}
use os_memory_management.UserHeap.Search.{FirstFit, Fit}
use os_memory_management.UserHeap.Next.{NextFit}
use os_memory_management.UserHeap.Place.{
  pages_of, round_up-pages, place-FirstFit, place-BestFit, place-WorstFit, place-NextFit,
}
use os_memory_management.UserHeap.Occupy.{IsHeap, at_page, first_page, occupy-IsHeap}

-- The kernel is asked for what was placed.
abbrev pub requested : ℕ → Option ℕ → List Call
requested size none = []
requested size (some a) = allocate_mem a size ∷ []

-- malloc returns a place with the property `Q`, asks the kernel for exactly that, and leaves the
-- heap valid.
pub record Allocates (Q : Option ℕ → Type 0) (h : Heap) (n : ℕ) (r : Option ℕ × Heap) : Type 0 where
  pub place : Q r.0
  pub valid : IsHeap r.1
  pub calls : r.1.calls ≡ h.calls ++ requested (page_size * n) r.0
  pub unchanged : r.0 ≡ none → (p : ℕ) → r.1.tracker p ≡ h.tracker p

-- A place is the address of free pages.
abbrev Lands : (ℕ → ℕ) → ℕ → Option ℕ → Type 0
Lands t n none = Unit
Lands t n (some a) = (b : ℕ) × (a ≡ page_addr b) × FreeRange t b n

finish-Allocates :
    (Q : Option ℕ → Type 0) (strategy n : ℕ) (r : Option ℕ) (h : Heap)
    → IsHeap h
    → 0 < n
    → Lands h.tracker n r
    → Q r
    → Allocates Q h n (finish strategy (page_size * n) r h)
unfolding finish
finish-Allocates Q strategy n none h v pos lands q = record {
  place = q;
  valid = record {
    tracker = v.tracker;
    start = elim (Bool-cases (strategy == nextfit)) [
      | inl e ↦ rw e v.start
      | inr e ↦ rw e (first_page h.tracker)
    ];
    used_addr = v.used_addr;
    used_size = v.used_size;
    free_addr = v.free_addr;
  };
  calls = sym (append-nil h.calls);
  unchanged = λ e p. refl;
}
finish-Allocates Q strategy n (some a) h v pos (b, here, range) q = record {
  place = q;
  valid = occupy-IsHeap h b n a v pos here range;
  calls = unfold occupy in refl;
  unchanged = λ e p. cc;
}

malloc-Allocates :
    (Q : Option ℕ → Type 0) (strategy junk size : ℕ) (h : Heap)
    → IsHeap h
    → 0 < size
    → size + 4095 < 2 ^ 32
    → ((r : Option ℕ) → Q r → Lands h.tracker (pages_of size) r)
    → Returns Q (place scan_fuel strategy junk (page_size * pages_of size) h)
    → Returns (Allocates Q h (pages_of size)) (malloc strategy junk size h)
unfolding malloc
malloc-Allocates Q strategy junk size h v pos small lands (returns r e q) =
    rw (round_up-pages size small, e)
      (returns (finish strategy (page_size * pages_of size) r h) refl
        (finish-Allocates Q strategy (pages_of size) r h v (omega arith) (lands r q) q))

Lands-FirstFit : (t : ℕ → ℕ) (n : ℕ) (r : Option ℕ) → FirstFit t n r → Lands t n r
Lands-FirstFit t n none q = tt
Lands-FirstFit t n (some a) (b, e, range, before) = (b, e, range)

Lands-Fit : (t : ℕ → ℕ) (n : ℕ) (r : Option ℕ) → Fit t n r → Lands t n r
Lands-Fit t n none q = tt
Lands-Fit t n (some a) q = q

-- On a valid heap, malloc of 1 byte up to 4 GB less 4 KB under FIRST FIT ends without an access out of bounds:
-- the size is below 2^32 - 4095, and larger ones wrap to 0 in ROUNDUP.
-- It returns the lowest address at which enough free pages stand together, or NULL if there is none;
-- it asks the kernel for these pages; and the heap is valid again.
pub malloc-FirstFit :
    (junk size : ℕ) (h : Heap)
    → IsHeap h
    → 0 < size
    → size + 4095 < 2 ^ 32
    → Returns
        (Allocates (FirstFit h.tracker (pages_of size)) h (pages_of size))
        (malloc firstfit junk size h)
malloc-FirstFit junk size h v pos small =
    malloc-Allocates _ firstfit junk size h v pos small (Lands-FirstFit h.tracker (pages_of size))
      (place-FirstFit scan_fuel h (pages_of size) junk v (omega arith) (omega arith))

-- On a valid heap, malloc of 1 byte up to 4 GB less 4 KB under BEST FIT and WORST FIT ends without an access
-- out of bounds: the size is below 2^32 - 4095, and larger ones wrap to 0 in ROUNDUP. It returns the address of enough free pages, or NULL only if no such
-- pages stand together; it asks the kernel for these pages; and the heap is valid again.
pub malloc-Fit :
    (strategy junk size : ℕ) (h : Heap)
    → (strategy ≡ bestfit) ⊎ (strategy ≡ worstfit)
    → IsHeap h
    → 0 < size
    → size + 4095 < 2 ^ 32
    → Returns
        (Allocates (Fit h.tracker (pages_of size)) h (pages_of size))
        (malloc strategy junk size h)
malloc-Fit strategy junk size h (inl e) v pos small = rw e (
    malloc-Allocates _ bestfit junk size h v pos small (Lands-Fit h.tracker (pages_of size))
      (place-BestFit scan_fuel h (pages_of size) junk v (omega arith) (omega arith)))
malloc-Fit strategy junk size h (inr e) v pos small = rw e (
    malloc-Allocates _ worstfit junk size h v pos small (Lands-Fit h.tracker (pages_of size))
      (place-WorstFit scan_fuel h (pages_of size) junk v (omega arith) (omega arith)))

-- NEXT FIT from where generalAddress points.
abbrev pub NextFrom : Heap → ℕ → Option ℕ → Type 0
NextFrom h n r =
    (g : ℕ) × (h.general ≡ page_addr g) × (g < user_heap_pages) × NextFit h.tracker n g r

Lands-NextFrom : (h : Heap) (n : ℕ) (r : Option ℕ) → NextFrom h n r → Lands h.tracker n r
Lands-NextFrom h n none q = tt
Lands-NextFrom h n (some a) (g, e, lt, q) = q

-- On a valid heap, malloc of 1 byte up to the heap's size under NEXT FIT ends without an access
-- out of bounds. It returns the address of enough free pages, or NULL only if all such pages lie
-- on both sides of generalAddress; it asks the kernel for these pages; and the heap is valid
-- again.
pub malloc-NextFit :
    (junk size : ℕ) (h : Heap)
    → IsHeap h
    → 0 < size
    → size ≤ page_size * user_heap_pages
    → Returns
        (Allocates (NextFrom h (pages_of size)) h (pages_of size))
        (malloc nextfit junk size h)
malloc-NextFit junk size h v pos small = elim v.start [
  | at_page g e lt start ↦
      malloc-Allocates (NextFrom h (pages_of size)) nextfit junk size h v pos (omega arith)
        (Lands-NextFrom h (pages_of size))
        (elim (place-NextFit scan_fuel h (pages_of size) junk v (omega arith) (omega arith) g e lt
          start (omega arith)) [ returns r k q ↦ returns r k (g, e, lt, q) ])
]
