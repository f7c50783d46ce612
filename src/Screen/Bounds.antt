-- ===== src/Screen/Bounds.antt =====
-- The text screen's position stays on the screen, and no cell outside the screen is written.
use os_memory_management.Base.{
  ℕ, ◌+◌, ◌%◌, ◌≤◌, ◌<◌, ◌≡◌, refl, ◌∙◌, inl, inr, arith, Bool-cases, leb, ◌==◌, [], ◌∷◌, ◌++◌,
}
use os_memory_management.Screen.{
  Screen, crt_cols, crt_size, with_colour, line_start, put, scroll, set_cursor, put_plain,
  put_blank, cga_putc,
}
use os_memory_management.Screen.Scroll.{scroll_cells-Scrolled}

-- The cells outside the screen are as they were.
abbrev pub SameOutside : Screen → Screen → Type 0
SameOutside s s' = (a : ℕ) → crt_size ≤ a → s'.cells a ≡ s.cells a

-- A step that keeps the position on the screen and writes no cell outside.
pub record Stays (s s' : Screen) : Type 0 where
  pub pos : s'.pos < crt_size
  pub outside : SameOutside s s'
  pub cursor : s'.cursor ≡ s'.pos

put_pos : (c : ℕ) (s : Screen) → s.pos < crt_size → (put c s).pos < crt_size + crt_cols
unfolding put line_start
put_pos c s lt = ground arith

put-SameOutside : (c : ℕ) (s : Screen) → s.pos < crt_size → SameOutside s (put c s)
unfolding put line_start
put-SameOutside c s lt a le = ground arith

scroll_pos : (s : Screen) → s.pos < crt_size + crt_cols → (scroll s).pos < crt_size
unfolding scroll
scroll_pos s lt = ground arith

scroll-SameOutside : (s : Screen) → SameOutside s (scroll s)
unfolding scroll
scroll-SameOutside s a le = elim (Bool-cases (leb crt_size s.pos)) [
  | inl full ↦ rw full ((scroll_cells-Scrolled s.cells).outside a le)
  | inr room ↦ rw room refl
]

set_cursor-Stays : (s : Screen) → s.pos < crt_size → Stays s (set_cursor s)
unfolding set_cursor
set_cursor-Stays s lt = record { pos = lt; outside = λ a le. refl; cursor = omega arith }

put_plain-Stays : (c : ℕ) (s : Screen) → s.pos < crt_size → Stays s (put_plain c s)
unfolding put_plain
put_plain-Stays c s lt =
    let s1 = put (with_colour c) s in
    let v = set_cursor-Stays (scroll s1) (scroll_pos s1 (put_pos (with_colour c) s lt)) in
    record {
      pos = v.pos;
      outside = λ a le.
          v.outside a le ∙ scroll-SameOutside s1 a le ∙ put-SameOutside (with_colour c) s lt a le;
      cursor = v.cursor;
    }

Stays-trans : (s s1 s2 : Screen) → Stays s s1 → Stays s1 s2 → Stays s s2
Stays-trans s s1 s2 v w = record {
  pos = w.pos;
  outside = λ a le. w.outside a le ∙ v.outside a le;
  cursor = w.cursor;
}

put_blank-Stays : (s : Screen) → s.pos < crt_size → Stays s (put_blank s)
unfolding put_blank
put_blank-Stays s lt =
    let v = put_plain-Stays 32 (record s { printed = s.printed ++ 32 ∷ [] }) lt in
    record { pos = v.pos; outside = v.outside; cursor = v.cursor }

-- A blank more.
and_blank : (s s' : Screen) → Stays s s' → Stays s (put_blank s')
and_blank s s' v = Stays-trans s s' (put_blank s') v (put_blank-Stays s' v.pos)

-- cga_putc of any character keeps the position on the screen and tells the display controller this
-- position, and writes no cell outside the screen, where the position is on the screen before.
pub cga_putc-Stays : (c : ℕ) (s : Screen) → s.pos < crt_size → Stays s (cga_putc c s)
unfolding cga_putc
cga_putc-Stays c s lt = elim (Bool-cases (c % 256 == 9)) [
  | inr other ↦ rw other (put_plain-Stays c s lt)
  | inl tab ↦
      let s1 = put_blank s in
      let s2 = put_blank s1 in
      let s3 = put_blank s2 in
      let s4 = put_blank s3 in
      let s5 = put_blank s4 in
      let v =
        and_blank s s4 (and_blank s s3 (and_blank s s2 (and_blank s s1 (put_blank-Stays s lt)))) in
      let w = set_cursor-Stays (scroll s5) (scroll_pos s5 (omega (arith, v.pos))) in
      rw tab record {
        pos = w.pos;
        outside = λ a le. w.outside a le ∙ scroll-SameOutside s5 a le ∙ v.outside a le;
        cursor = w.cursor;
      }
]
