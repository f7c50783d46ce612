-- ===== src/UserHeap/Free.antt =====
-- free of lib/uheap.c.
use native.Mathlib.Decide.{ℕ_discrete, dec_lt}
use os_memory_management.Base.{
  ℕ, zero, suc, ◌+◌, ◌*◌, ◌/◌, ◌≤◌, ◌<◌, ◌≡◌, ◌≢◌, ap, inl, inr, arith, true, [], ◌∷◌, ◌++◌, some,
  Bool-cases, ltb, ◌==◌, ok, fault, update,
}
use os_memory_management.Mmu.{page_size, user_heap_start, user_heap_pages, sub32}
use os_memory_management.UserHeap.{Heap, free_mem, find_addr, free_at, free}
use os_memory_management.UserHeap.Valid.{IsTracker, page_addr}
use os_memory_management.UserHeap.Occupy.{IsHeap, at_page}

-- The search finds the only entry with the address.
find_addr-some :
    (n i k va : ℕ) (addr_of : ℕ → ℕ)
    → i ≤ k
    → k < i + n
    → addr_of k ≡ va
    → ((q : ℕ) → q < k → addr_of q ≢ va)
    → find_addr n i va addr_of ≡ some k
unfolding find_addr
find_addr-some zero i k va addr_of lo hi e first = absurd (omega arith)
find_addr-some (suc n) i k va addr_of lo hi e first = elim (Bool-cases (addr_of i == va)) [
  | inl here ↦ elim (ℕ_discrete i k) [
    | yes same ↦ rw (here, same)
    | no other ↦ absurd (first i (omega arith) (ground arith))
  ]
  | inr not_here ↦ elim (ℕ_discrete i k) [
    | yes same ↦ absurd (ground (arith, ap addr_of same))
    | no other ↦
        rw not_here (find_addr-some n (i + 1) k va addr_of (omega arith) (omega arith) e first)
  ]
]

find_addr-finds :
    (n i k va : ℕ) (addr_of : ℕ → ℕ)
    → i ≤ k
    → k < i + n
    → addr_of k ≡ va
    → (j : ℕ) × (find_addr n i va addr_of ≡ some j) × (addr_of j ≡ va)
unfolding find_addr
find_addr-finds zero i k va addr_of lo hi e = absurd (omega arith)
find_addr-finds (suc n) i k va addr_of lo hi e = elim (Bool-cases (addr_of i == va)) [
  | inl here ↦ (i, rw here, ground arith)
  | inr not_here ↦ elim (ℕ_discrete i k) [
    | yes same ↦ absurd (ground (arith, ap addr_of same))
    | no other ↦
        let (j, found, is) = find_addr-finds n (i + 1) k va addr_of (omega arith) (omega arith) e in
        (j, rw not_here found, is)
  ]
]

IsTracker-free : (t : ℕ → ℕ) (p : ℕ) → IsTracker t → IsTracker (update t p 0)
IsTracker-free t p w = record {
  inside = λ q lt. ground (arith, w.inside q);
  outside = λ q le. ground (arith, w.outside q);
  apart = λ a q lt in_block. elim (ℕ_discrete a p) [
    | yes same ↦ absurd (ground arith)
    | no other ↦ let inside : q < a + t a = ground arith in ground (arith, w.apart a q lt inside)
  ];
}

-- The page of an allocation.
abbrev pub freed : ℕ → Heap → Heap
freed p h = record h {
  tracker = update h.tracker p 0;
  addr_of = update h.addr_of p 0;
  size_of = update h.size_of p 0;
  calls = h.calls ++ free_mem (page_addr p) (page_size * h.tracker p) ∷ [];
}

free_at-freed :
    (h : Heap) (p : ℕ)
    → p < user_heap_pages
    → h.addr_of p ≡ page_addr p
    → h.size_of p ≡ page_size * h.tracker p
    → free_at p (page_addr p) h ≡ ok (freed p h)
unfolding free_at
free_at-freed h p lt addr size =
    let e : sub32 (h.addr_of p) user_heap_start / page_size ≡ p = omega arith in
    let b : ltb p user_heap_pages ≡ true = ground arith in rw (e, b, size)

free_at-null : (h : Heap) (j va : ℕ) → h.addr_of j ≡ 0 → free_at j va h ≡ fault
unfolding free_at
free_at-null h j va e = rw e

-- free of the address of an allocation takes exactly this allocation out of the tables, asks the
-- kernel to free all its pages, and leaves the heap valid.
pub free-freed :
    (h : Heap) (p : ℕ)
    → IsHeap h
    → h.tracker p ≢ 0
    → (free (page_addr p) h ≡ ok (freed p h)) × IsHeap (freed p h)
unfolding free
free-freed h p v used = (
  run,
  record {
    tracker = IsTracker-free h.tracker p v.tracker;
    start = elim v.start [
      | at_page g e below start ↦ at_page g e below (λ a k. ground (arith, start a k))
    ];
    used_addr = λ q k. ground (arith, v.used_addr q);
    used_size = λ q k. ground (arith, v.used_size q);
    free_addr = λ q k. ground (arith, v.free_addr q);
  },
)
  where
    lt : p < user_heap_pages
    lt = elim (dec_lt p user_heap_pages) [
      | yes k ↦ k
      | no k ↦ absurd (used (v.tracker.outside p (omega arith)))
    ]

    found : find_addr user_heap_pages 0 (page_addr p) h.addr_of ≡ some p
    found =
        find_addr-some user_heap_pages 0 p (page_addr p) h.addr_of (omega arith) lt
          (v.used_addr p used) (λ q k. ground (arith, v.free_addr q, v.used_addr q))

    run : free (page_addr p) h ≡ ok (freed p h)
    run = rw (found, free) (free_at-freed h p lt (v.used_addr p used) (v.used_size p used))

-- free(NULL) is not a no-op: on a valid heap with a free page it finds the entry of that page and
-- writes outside UHeap_Tracker.
pub free-null :
    (h : Heap) (p : ℕ) → IsHeap h → p < user_heap_pages → h.tracker p ≡ 0 → free 0 h ≡ fault
unfolding free
free-null h p v lt unused =
    let (j, found, is) =
      find_addr-finds user_heap_pages 0 p 0 h.addr_of (omega arith) (omega arith)
        (v.free_addr p unused) in
    rw (found, free) (free_at-null h j 0 is)
