-- ===== src/UserHeap/Place.antt =====
-- Where the strategies of malloc place an allocation.
use os_memory_management.Base.{
  ℕ, ◌+◌, ◌*◌, ◌/◌, ◌^◌, ◌≤◌, ◌<◌, ◌≡◌, refl, arith, ltb, Run, ok, ◌>>=◌, Returns, returns,
}
use os_memory_management.Mmu.{
  page_size, user_heap_start, user_heap_max, user_heap_pages, sub32, round_up,
}
use os_memory_management.UserHeap.{
  Heap, start_scan, last_run, place, firstfit, bestfit, nextfit, worstfit,
}
use os_memory_management.UserHeap.Valid.{IsBoundary, page_addr, AtPage}
use os_memory_management.UserHeap.Search.{FirstFit, Fit}
use os_memory_management.UserHeap.First.{first_loop-FirstFit}
use os_memory_management.UserHeap.Fit.{Sound, fit_loop-Fit}
use os_memory_management.UserHeap.Next.{NextFit, first_pass, next_loop-NextFit}
use os_memory_management.UserHeap.Occupy.{IsHeap}

-- The pages that `size` bytes take.
abbrev pub pages_of : ℕ → ℕ
pages_of size = (size + 4095) / 4096

-- `ROUNDUP(size, PAGE_SIZE)` is whole pages, unless the sum wraps.
pub round_up-pages :
    (size : ℕ) → size + 4095 < 2 ^ 32 → round_up size page_size ≡ page_size * pages_of size
unfolding round_up
round_up-pages size small = omega arith

start-AtPage :
    (t : ℕ → ℕ) (g a junk v0 : ℕ)
    → a ≡ page_addr g
    → g < user_heap_pages
    → IsBoundary t g
    → AtPage t (start_scan a junk v0) g g
unfolding start_scan
start-AtPage t g a junk v0 e lt start = record {
  i_is = e;
  inside = omega arith;
  run = omega arith;
  current_is = omega arith;
  j_is = λ k. cc;
  no_run = λ k. refl;
  boundary = start;
  free = λ q lo hi. absurd (omega arith);
}

-- What follows a search.
Returns-then {ℓ κ μ} :
    {A : Type ℓ} {B : Type κ} (P : B → Type μ) (f : A → B) (r : Run A)
    → Returns (λ a. P (f a)) r
    → Returns P (r >>= (λ a. ok (f a)))
Returns-then P f r (returns a e p) = rw e (returns (f a) refl p)

module _ (fuel : ℕ) (h : Heap) (n junk : ℕ) (v : IsHeap h) (pos : 0 < n)
    (enough : user_heap_pages < fuel) where
  start_0 : (v0 : ℕ) → AtPage h.tracker (start_scan user_heap_start junk v0) 0 0
  start_0 v0 =
      start-AtPage h.tracker 0 user_heap_start junk v0 refl (omega arith)
        (λ p lt. absurd (omega arith))

  Sound-0 : (v0 : ℕ) → Sound h.tracker n v0 (start_scan user_heap_start junk v0) 0
  unfolding start_scan
  Sound-0 v0 = record {
    none_yet = λ k a lt. absurd (omega arith);
    initial = λ k. refl;
    kept = λ k. cc;
  }

  pub place-FirstFit : Returns (FirstFit h.tracker n) (place fuel firstfit junk (page_size * n) h)
  unfolding place
  place-FirstFit = Returns-then (FirstFit h.tracker n) (last_run (page_size * n)) _ (
      first_loop-FirstFit h.tracker n v.tracker pos fuel (start_scan user_heap_start junk 0) 0 0
        (unfold start_scan in refl) (start_0 0) (λ a lt. absurd (omega arith)) (omega arith))

  pub place-BestFit : Returns (Fit h.tracker n) (place fuel bestfit junk (page_size * n) h)
  unfolding place
  place-BestFit =
      let v0 : ℕ = sub32 user_heap_max user_heap_start in
      Returns-then (Fit h.tracker n) (last_run (page_size * n)) _ (
        fit_loop-Fit h.tracker n v0 (λ a c. ltb c a) v.tracker pos (λ c lo hi. ground arith) fuel
          (start_scan user_heap_start junk v0) 0 0 (start_0 v0) (Sound-0 v0) (omega arith))

  pub place-WorstFit : Returns (Fit h.tracker n) (place fuel worstfit junk (page_size * n) h)
  unfolding place
  place-WorstFit = Returns-then (Fit h.tracker n) (last_run (page_size * n)) _ (
      fit_loop-Fit h.tracker n 0 (λ a c. ltb a c) v.tracker pos (λ c lo hi. ground arith) fuel
        (start_scan user_heap_start junk 0) 0 0 (start_0 0) (Sound-0 0) (omega arith))

  pub place-NextFit :
      (g : ℕ)
      → h.general ≡ page_addr g
      → g < user_heap_pages
      → IsBoundary h.tracker g
      → n ≤ user_heap_pages
      → Returns (NextFit h.tracker n g) (place fuel nextfit junk (page_size * n) h)
  unfolding place
  place-NextFit g e lt start small =
      Returns-then (NextFit h.tracker n g) (last_run (page_size * n)) _ (
        next_loop-NextFit h.tracker n g v.tracker pos small start lt fuel
          (start_scan h.general junk 0) g g lt (unfold start_scan in enough)
          (record {
            at = start-AtPage h.tracker g h.general junk 0 e lt start;
            fresh = unfold start_scan in refl;
            phase =
                first_pass (omega arith) (unfold start_scan in refl)
                  (λ a lo hi. absurd (omega arith));
          }))
