-- ===== src/PageFault/Slot.antt =====
-- The search for an empty element of kern/trap.c, and the number of elements in use.
use native.Mathlib.Decide.{dec_lt, ℕ_discrete}
use os_memory_management.Base.{
  ℕ, zero, suc, ◌+◌, ◌≤◌, ◌<◌, ◌≡◌, ◌≢◌, refl, sym, ap, ◌∙◌, arith, false, below_suc, ◌==◌, Returns,
  returns,
}
use os_memory_management.WorkingSet.{Element, Env, count_used}
use os_memory_management.PageFault.{find_empty}
use os_memory_management.Base.Circle.{hand, hand_bound, hand_reaches}

-- The loop of env_page_ws_get_size counts at most all elements, and misses one only where one is empty.
pub count_used-empty :
    (n : ℕ) (ws : ℕ → Element) → count_used n ws < n → (i : ℕ) × (i < n) × ((ws i).empty ≢ 0)
unfolding count_used
count_used-empty zero ws h = absurd (omega arith)
count_used-empty (suc n) ws h = elim (ℕ_discrete (ws n).empty 0) [
  | no ne ↦ (n, omega arith, ne)
  | yes e ↦ let (i, lt, ne) = count_used-empty n ws (ground (arith, h)) in (i, omega arith, ne)
]

-- The element the search ends at.
pub record FirstEmpty (e : Env) (i r : ℕ) : Type 0 where
  pub steps : ℕ
  pub bound : steps ≤ e.page_max
  pub at : r ≡ hand e.page_max i steps
  pub inside : r < e.page_max
  pub vacant : (e.pages r).empty ≢ 0
  pub before : (j : ℕ) → j < steps → (e.pages (hand e.page_max i j)).empty ≡ 0

module _ (e : Env) (i : ℕ) (lt : i < e.page_max) where
  find_empty_loop :
      (fuel k q : ℕ)
      → k ≤ q
      → q < e.page_max
      → q < k + fuel
      → (e.pages (hand e.page_max i q)).empty ≢ 0
      → ((j : ℕ) → j < k → (e.pages (hand e.page_max i j)).empty ≡ 0)
      → Returns (FirstEmpty e i) (find_empty fuel (hand e.page_max i k) e)
  unfolding find_empty
  find_empty_loop zero k q kq qm enough vacant before = absurd (omega arith)
  find_empty_loop (suc fuel) k q kq qm enough vacant before =
      elim (ℕ_discrete (e.pages (hand e.page_max i k)).empty 0) [
        | no ne ↦
            let full : ((e.pages (hand e.page_max i k)).empty == 0) ≡ false = ground (arith, ne) in
            rw full (
              returns (hand e.page_max i k) refl record {
                steps = k;
                bound = omega arith;
                at = refl;
                inside = hand_bound e.page_max i k lt (omega arith);
                vacant = ne;
                before = before;
              })
        | yes used ↦ elim (dec_lt k q) [
          | yes kq' ↦ rw used (
              find_empty_loop fuel (suc k) q (omega arith) qm (omega arith) vacant
                (below_suc (λ j. (e.pages (hand e.page_max i j)).empty ≡ 0) k before used))
          | no nkq ↦
              let same : k ≡ q = omega arith in
              absurd (vacant (ap (λ k'. (e.pages (hand e.page_max i k')).empty) (sym same) ∙ used))
        ]
      ]

  -- The search of the handler from an index within the working set ends at the first empty
  -- element in circular order, where one is empty.
  pub find_empty-FirstEmpty :
      (p : ℕ)
      → p < e.page_max
      → (e.pages p).empty ≢ 0
      → Returns (FirstEmpty e i) (find_empty (e.page_max + 1) i e)
  find_empty-FirstEmpty p pm vacant =
      let (q, qm, at) = hand_reaches e.page_max i p lt pm in
      find_empty_loop (e.page_max + 1) 0 q (omega arith) qm (omega arith) (rw at vacant)
        (λ j j0. absurd (omega arith))
