-- ===== src/Screen/Scroll.antt =====
-- What scrolling leaves on the screen.
use os_memory_management.Base.{
  ℕ, zero, suc, ◌+◌, ◌-◌, ◌≤◌, ◌<◌, ◌≡◌, ap, ◌∙◌, inl, inr, arith, leb, ltb, ◌&&◌, if◌then◌else◌,
  update,
}
use os_memory_management.Strings.{copy_up}
use os_memory_management.Strings.Move.{copy_up-Moved}
use os_memory_management.Screen.{crt_cols, crt_size, blank, scroll_cells}

blank_lem :
    (n i : ℕ) (cells : ℕ → ℕ) (a : ℕ)
    → blank n i cells a ≡ (if leb i a && ltb a (i + n) then 0x720 else cells a)
unfolding blank
blank_lem zero i cells a = ground arith
blank_lem (suc n) i cells a = blank_lem n (i + 1) (update cells i 0x720) a ∙ ground arith

-- The screen after a scroll: every line but the last is the one that was below it, the last is blank,
-- and no cell outside the screen is written.
pub record Scrolled (cells cells' : ℕ → ℕ) : Type 0 where
  pub moved : (a : ℕ) → a + crt_cols < crt_size → cells' a ≡ cells (a + crt_cols)
  pub cleared : (a : ℕ) → crt_size ≤ a + crt_cols → a < crt_size → cells' a ≡ 0x720
  pub outside : (a : ℕ) → crt_size ≤ a → cells' a ≡ cells a

-- Scrolling moves every line one up, makes the last line blank and writes no cell outside the screen.
pub scroll_cells-Scrolled : (cells : ℕ → ℕ) → Scrolled cells (scroll_cells cells)
unfolding scroll_cells
scroll_cells-Scrolled cells =
    let n : ℕ = crt_size - crt_cols in
    let v = copy_up-Moved n 0 crt_cols cells (inl (omega arith)) in
    record {
      moved = λ a lt.
          let h : copy_up n 0 crt_cols cells a ≡ cells (a + crt_cols) =
            ap (copy_up n 0 crt_cols cells) {x = a} {y = 0 + a} (omega arith)
            ∙ v.target a (omega arith)
            ∙ ap cells (omega arith) in
          blank_lem crt_cols n (copy_up n 0 crt_cols cells) a ∙ ground (arith, lt, h);
      cleared = λ a le lt. blank_lem crt_cols n (copy_up n 0 crt_cols cells) a ∙ ground arith;
      outside = λ a le.
          blank_lem crt_cols n (copy_up n 0 crt_cols cells) a
          ∙ ground (arith, le, v.rest a (inr (omega arith)));
    }
