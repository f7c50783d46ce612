-- ===== src/UserHeap/Occupy.antt =====
-- The invariant of lib/uheap.c, and that recording an allocation of free pages keeps it.
use native.Mathlib.Decide.{ℕ_discrete}
use os_memory_management.Base.{
  ℕ, ◌+◌, ◌*◌, ◌/◌, ◌<◌, ◌≡◌, ◌≢◌, refl, inl, inr, arith, Bool-cases, leb, update,
}
use os_memory_management.Mmu.{
  page_size, user_heap_start, user_heap_max, user_heap_pages, add32, sub32,
}
use os_memory_management.UserHeap.{Heap, occupy}
use os_memory_management.UserHeap.Valid.{FreeRange, IsBoundary, IsTracker, page_addr}

-- `general` is the address of a page of the heap that no allocation in front of it covers.
pub data IsStart (t : ℕ → ℕ) (a : ℕ) : Type 0 where
  at_page : (g : ℕ) → a ≡ page_addr g → g < user_heap_pages → IsBoundary t g → IsStart t a

-- sizeOfVAs has an entry for every allocation and none for other pages.
pub record IsHeap (h : Heap) : Type 0 where
  pub tracker : IsTracker h.tracker
  pub start : IsStart h.tracker h.general
  pub used_addr : (p : ℕ) → h.tracker p ≢ 0 → h.addr_of p ≡ page_addr p
  pub used_size : (p : ℕ) → h.tracker p ≢ 0 → h.size_of p ≡ page_size * h.tracker p
  pub free_addr : (p : ℕ) → h.tracker p ≡ 0 → h.addr_of p ≡ 0

module _ (t : ℕ → ℕ) (b n : ℕ) (w : IsTracker t) (range : FreeRange t b n) (pos : 0 < n) where
  IsTracker-update : IsTracker (update t b n)
  IsTracker-update = record {
    inside = λ p lt. ground (arith, w.inside p, range.inside);
    outside = λ p le. ground (arith, w.outside p, range.inside);
    apart = λ p q lt in_block. elim (ℕ_discrete p b) [
      | yes same ↦
          let inside : q < b + n = ground arith in
          ground (arith, range.free q (omega arith) inside q (omega arith))
      | no other ↦
          let inside : q < p + t p = ground arith in
          ground (arith, w.apart p q lt inside, range.free b (omega arith) (omega arith) p)
    ];
  }

  IsBoundary-update : IsBoundary (update t b n) b
  IsBoundary-update p lt = ground (arith, range.free b (omega arith) (omega arith) p)

pub first_page : (t : ℕ → ℕ) → IsStart t user_heap_start
first_page t = at_page 0 refl (omega arith) (λ p lt. absurd (omega arith))

-- The state that malloc leaves with a place found: the invariant holds again.
pub occupy-IsHeap :
    (h : Heap) (b n a : ℕ)
    → IsHeap h
    → 0 < n
    → a ≡ page_addr b
    → FreeRange h.tracker b n
    → IsHeap (occupy (page_size * n) a h)
unfolding occupy
occupy-IsHeap h b n a v pos here range =
    rw (e, e')
      (record {
        tracker = IsTracker-update h.tracker b n v.tracker range pos;
        start = elim (Bool-cases (leb user_heap_max (add32 a (page_size * n)))) [
          | inl over ↦ rw over (first_page (update h.tracker b n))
          | inr under ↦ rw under (
              at_page b here (omega (arith, range.inside))
                (IsBoundary-update h.tracker b n v.tracker range pos))
        ];
        used_addr = λ p used. ground (arith, v.used_addr p);
        used_size = λ p used. ground (arith, v.used_size p);
        free_addr = λ p free. ground (arith, v.free_addr p);
      })
  where
    e : sub32 a user_heap_start / page_size ≡ b
    e = omega (arith, range.inside)

    e' : page_size * n / page_size ≡ n
    e' = omega arith
