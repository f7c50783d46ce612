-- ===== src/UserHeap/First.antt =====
-- The loop of FIRST FIT ends, and finds the lowest free pages that suffice.
use native.Mathlib.Decide.{dec_lt}
use os_memory_management.Base.{
  ℕ, zero, suc, ◌+◌, ◌*◌, ◌<◌, ◌≡◌, refl, inl, inr, arith, false, Bool-cases, leb, ◌==◌, Returns,
  returns,
}
use os_memory_management.Mmu.{page_size, user_heap_pages}
use os_memory_management.UserHeap.{Scan, grow, skip, take_run, last_run, first_loop}
use os_memory_management.UserHeap.Search.{read_tracker-ok, in_heap, past_heap, FirstFit}
use os_memory_management.UserHeap.Valid.{
  IsTracker, NoneBefore, NoneBefore-skip, AtPage, AtPage-FreeRange, grow-AtPage, skip-AtPage,
}

module _ (t : ℕ → ℕ) (n : ℕ) (w : IsTracker t) (pos : 0 < n) where
  last_run-FirstFit :
      (s : Scan) (c r : ℕ)
      → s.found ≡ false
      → c ≡ user_heap_pages
      → AtPage t s c r
      → NoneBefore t n r
      → FirstFit t n (last_run (page_size * n) s)
  unfolding last_run
  last_run-FirstFit s c r fresh end v before = elim (Bool-cases (leb (page_size * n) s.current)) [
    | inl enough ↦
        let (e, range) = AtPage-FreeRange t s c r n v pos (ground arith) in
        rw (fresh, enough) (r, e, range, before)
    | inr short ↦
        rw (fresh, short)
          λ a range. elim (dec_lt a r) [
            | yes below ↦ before a below range
            | no above ↦ ground (arith, end, v.current_is, range.inside)
          ]
  ]

  pub first_loop-FirstFit :
      (fuel : ℕ) (s : Scan) (c r : ℕ)
      → s.found ≡ false
      → AtPage t s c r
      → NoneBefore t n r
      → user_heap_pages < c + fuel
      → Returns
          (λ s'. FirstFit t n (last_run (page_size * n) s'))
          (first_loop fuel t (page_size * n) s)
  unfolding first_loop last_run
  first_loop-FirstFit zero s c r fresh v before enough = absurd (omega (arith, v.inside))
  first_loop-FirstFit (suc fuel) s c r fresh v before enough = elim (dec_lt c user_heap_pages) [
    | no done ↦
        let (past, end) = past_heap t s c r done v in
        rw past (returns s refl (last_run-FirstFit s c r fresh end v before))
    | yes lt ↦ elim (Bool-cases (t c == 0)) [
      | inl free ↦
          rw (in_heap t s c r lt v, read_tracker-ok t s c r lt v, free)
            (first_loop-FirstFit fuel (grow s) (c + 1) r fresh
              (grow-AtPage t s c r lt (ground arith) v) before (omega arith))
      | inr used ↦ elim (Bool-cases (leb (page_size * n) s.current)) [
        | inl long ↦
            let (e, range) = AtPage-FreeRange t s c r n v pos (ground arith) in
            rw (in_heap t s c r lt v, read_tracker-ok t s c r lt v, used, long)
              (returns (take_run s) refl (r, e, range, before))
        | inr short ↦
            rw (in_heap t s c r lt v, read_tracker-ok t s c r lt v, used, short)
              (first_loop-FirstFit fuel (skip (t c) s) (c + t c) (c + t c) fresh
                (skip-AtPage t s c r w lt v)
                (NoneBefore-skip t n r c pos (ground arith) (ground arith) before) (ground arith))
      ]
    ]
  ]
