-- ===== src/WorkingSet/Find.antt =====
-- Invalidation removes the first element of a page, and nothing where no element has the page.
use mathlib.Core.Path.{subst}
use os_memory_management.Base.{
  ℕ, zero, suc, ◌+◌, ◌≤◌, ◌<◌, ◌≡◌, ◌≢◌, refl, inl, inr, arith, ◌==◌, Bool-cases, Option-cases,
  lt→ltb, Option, some, none, update_self, update-ne, from_next, Returns, returns,
}
use os_memory_management.Mmu.{page_size, round_down}
use os_memory_management.WorkingSet.{
  Element, Env, find_va, cleared, page_clear_entry, page_invalidate,
}

abbrev pub FirstOf : (ℕ → Element) → ℕ → ℕ → ℕ → ℕ → Option ℕ → Type 0
FirstOf ws unit va i n none = (j : ℕ) → i ≤ j → j < i + n → round_down (ws j).va unit ≢ va
FirstOf ws unit va i n (some r) =
    (i ≤ r)
    × (r < i + n)
    × (round_down (ws r).va unit ≡ va)
    × ((j : ℕ) → i ≤ j → j < r → round_down (ws j).va unit ≢ va)

FirstOf-next :
    (ws : ℕ → Element) (unit va i n : ℕ) (o : Option ℕ)
    → round_down (ws i).va unit ≢ va
    → FirstOf ws unit va (i + 1) n o
    → FirstOf ws unit va i (suc n) o
FirstOf-next ws unit va i n none other h =
    from_next (λ j. j < i + suc n → round_down (ws j).va unit ≢ va) i (λ _. other)
      (λ j le lt. h j le (omega arith))
FirstOf-next ws unit va i n (some r) other (le, lt, same, before) = (
  omega arith,
  omega arith,
  same,
  from_next (λ j. j < r → round_down (ws j).va unit ≢ va) i (λ _. other)
      (λ j ge jr. before j ge jr),
)

find_va_lem : (n i unit va : ℕ) (ws : ℕ → Element) → FirstOf ws unit va i n (find_va n i unit va ws)
unfolding find_va
find_va_lem zero i unit va ws = λ j le lt. absurd (omega arith)
find_va_lem (suc n) i unit va ws = elim (Bool-cases (round_down (ws i).va unit == va)) [
  | inl here ↦
      rw here (omega arith, omega arith, ground (arith, here), λ j le lt. absurd (omega arith))
  | inr other ↦
      rw other
        (FirstOf-next ws unit va i n _ (ground (arith, other)) (find_va_lem n (i + 1) unit va ws))
]

abbrev pub Removed : Option ℕ → Env → Env → Type 0
Removed none e e' = e' ≡ e
Removed (some i) e e' =
    (e'.pages i ≡ cleared)
    × ((j : ℕ) → i ≢ j → e'.pages j ≡ e.pages j)
    × (e'.page_last ≡ e.page_last)

-- env_page_ws_invalidate clears the first element that holds the page of the address, and leaves the
-- environment as it is where no element holds it.
pub page_invalidate-Removed :
    (va : ℕ) (e : Env)
    → Returns
        (λ e'.
          (o : Option ℕ) × FirstOf e.pages page_size (round_down va page_size) 0 e.page_max o
          × Removed o e e')
        (page_invalidate va e)
unfolding page_invalidate page_clear_entry
page_invalidate-Removed va e =
    let page = round_down va page_size in
    let first = find_va_lem e.page_max 0 page_size page e.pages in
    elim (Option-cases (find_va e.page_max 0 page_size page e.pages)) [
      | inl q ↦
          rw (page_invalidate, q)
            (returns e refl
              (none, subst (FirstOf e.pages page_size page 0 e.page_max) q first, refl))
      | inr (i, q) ↦
          let found = subst (FirstOf e.pages page_size page 0 e.page_max) q first in
          let inside : i < e.page_max = omega (arith, found.1) in
          rw (page_invalidate, q, lt→ltb _ _ inside)
            (returns _ refl (
              some i,
              found,
              (update_self e.pages i cleared, (λ j ne. update-ne e.pages i j cleared ne), refl),
            ))
    ]
