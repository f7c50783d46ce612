-- ===== src/PageFault/Clock.antt =====
-- CLOCK of kern/trap.c ends within a round and one step, and gives every page that is in use a second
-- chance.
use native.Mathlib.Decide.{dec_lt}
use os_memory_management.Base.{
  ℕ, zero, suc, ◌+◌, ◌≤◌, ◌<◌, ◌≡◌, ◌≢◌, refl, sym, ap, ◌∙◌, inl, inr, arith, true, false,
  Bool-cases, lt→ltb, update, update_self, update-ne, below_suc, Returns, returns,
}
use os_memory_management.Mmu.{page_size, is_used, clear_used, round_down}
use os_memory_management.WorkingSet.{Env, page_get_va}
use os_memory_management.PageFault.{clock_scan, clock_fuel}
use os_memory_management.Base.Circle.{hand, hand_bound, hand_round, hand_apart}

is_used-clear_used : (x : ℕ) → is_used (clear_used x) ≡ false
is_used-clear_used x = ground arith

-- The page of element `i`, and the page that the hand meets after `k` steps.
abbrev pub page_of : Env → ℕ → ℕ
page_of e i = round_down (e.pages i).va page_size

abbrev pub met : Env → ℕ → ℕ
met e k = page_of e (hand e.page_max e.page_last k)

-- No two elements of the working set hold the same page.
abbrev pub PagesDiffer : Env → Type 0
PagesDiffer e = (i j : ℕ) → i < e.page_max → j < e.page_max → i ≢ j → page_of e i ≢ page_of e j

-- The hand has met `k` pages in use and has cleared their used bits, and no other entry.
pub record Sweep (e : Env) (pte : ℕ → ℕ) (k : ℕ) (pte' : ℕ → ℕ) : Type 0 where
  pub passed : (j : ℕ) → j < k → is_used (pte (met e j)) ≡ true
  pub cleared : (j : ℕ) → j < k → pte' (met e j) ≡ clear_used (pte (met e j))
  pub rest : (a : ℕ) → ((j : ℕ) → j < k → met e j ≢ a) → pte' a ≡ pte a

-- The choice: after `k` steps the hand meets the first page that is not in use, or all are in use
-- and the hand is where it began.
pub record SecondChance (e : Env) (pte : ℕ → ℕ) (r : ℕ × (ℕ → ℕ)) : Type 0 where
  pub steps : ℕ
  pub bound : steps ≤ e.page_max
  pub at : r.0 ≡ hand e.page_max e.page_last steps
  pub sweep : Sweep e pte steps r.1
  pub stops : steps < e.page_max → is_used (pte (met e steps)) ≡ false
  pub full_round : steps ≡ e.page_max → r.0 ≡ e.page_last

module _ (e : Env) (pte : ℕ → ℕ) (lt : e.page_last < e.page_max) (differ : PagesDiffer e) where
  met_apart : (j k : ℕ) → j < k → k < e.page_max → met e j ≢ met e k
  met_apart j k jk km =
      differ (hand e.page_max e.page_last j) (hand e.page_max e.page_last k)
        (hand_bound e.page_max e.page_last j lt (omega arith))
        (hand_bound e.page_max e.page_last k lt (omega arith))
        (hand_apart e.page_max e.page_last j k lt jk km)

  -- The page the hand is at has its first entry within the first round, and has no used bit after it.
  at_entry :
      (k : ℕ) (pte' : ℕ → ℕ) → k < e.page_max → Sweep e pte k pte' → pte' (met e k) ≡ pte (met e k)
  at_entry k pte' km s = s.rest (met e k) (λ j jk. met_apart j k jk km)

  after_round :
      (k : ℕ) (pte' : ℕ → ℕ)
      → k ≡ e.page_max
      → Sweep e pte k pte'
      → is_used (pte' (met e k)) ≡ false
  after_round k pte' end s =
      ap (λ i. is_used (pte' (page_of e i)))
        (ap (hand e.page_max e.page_last) end ∙ hand_round e.page_max e.page_last lt)
      ∙ ap is_used (s.cleared 0 (omega arith))
      ∙ is_used-clear_used (pte (met e 0))

  Sweep-step :
      (k : ℕ) (pte' : ℕ → ℕ)
      → k < e.page_max
      → Sweep e pte k pte'
      → is_used (pte' (met e k)) ≡ true
      → Sweep e pte (suc k) (update pte' (met e k) (clear_used (pte' (met e k))))
  Sweep-step k pte' km s used = record {
    passed =
        below_suc (λ j. is_used (pte (met e j)) ≡ true) k s.passed
          (ap is_used (sym (at_entry k pte' km s)) ∙ used);
    cleared =
        below_suc (λ j. _ ≡ clear_used (pte (met e j))) k
          (λ j jk.
            update-ne pte' (met e k) (met e j) _ (λ q. met_apart j k jk km (sym q))
            ∙ s.cleared j jk)
          (update_self pte' (met e k) _ ∙ ap clear_used (at_entry k pte' km s));
    rest = λ a out.
        update-ne pte' (met e k) a _ (out k (omega arith)) ∙ s.rest a (λ j jk. out j (omega arith));
  }

  pub clock_scan_lem :
      (fuel k : ℕ) (pte' : ℕ → ℕ)
      → k ≤ e.page_max
      → e.page_max < k + fuel
      → Sweep e pte k pte'
      → Returns (SecondChance e pte) (clock_scan fuel (hand e.page_max e.page_last k) e pte')
  unfolding clock_scan page_get_va
  clock_scan_lem zero k pte' le enough s = absurd (omega arith)
  clock_scan_lem (suc fuel) k pte' le enough s =
      let inside = lt→ltb _ _ (hand_bound e.page_max e.page_last k lt le) in
      elim (Bool-cases (is_used (pte' (met e k)))) [
        | inl used ↦ elim (dec_lt k e.page_max) [
          | yes km ↦
              rw (inside, used)
                (clock_scan_lem fuel (suc k) _ (omega arith) (omega arith)
                  (Sweep-step k pte' km s used))
          | no end ↦ absurd (ground (arith, after_round k pte' (omega arith) s))
        ]
        | inr unused ↦
            rw (inside, unused)
              (returns _ refl record {
                steps = k;
                bound = le;
                at = refl;
                sweep = s;
                stops = λ km. ap is_used (sym (at_entry k pte' km s)) ∙ unused;
                full_round = λ end.
                    ap (hand e.page_max e.page_last) end ∙ hand_round e.page_max e.page_last lt;
              })
      ]

  -- CLOCK ends within a round and one step of its loop, with the first page in circular order that is not
  -- in use; where all are in use, with the page it begins at. It clears the used bits of the pages
  -- it passes, and changes no other entry. The index it begins at is within the working set, and no
  -- two elements hold the same page.
  pub clock_scan-SecondChance :
      Returns (SecondChance e pte) (clock_scan (clock_fuel e) e.page_last e pte)
  clock_scan-SecondChance = clock_scan_lem (clock_fuel e) 0 pte (omega arith) (omega arith) record {
    passed = λ j jk. absurd (omega arith);
    cleared = λ j jk. absurd (omega arith);
    rest = λ a out. refl;
  }
