-- ===== src/Screen.antt =====
-- kern/console.c: the text screen. A cell is the 16 bits of a character and its colours; what lpt_putc
-- writes to the parallel port is recorded, and the cursor is the position that the display controller is
-- told.
pub mod Bounds
pub mod Scroll
use os_memory_management.Base.{
  ℕ, zero, suc, ◌+◌, ◌-◌, ◌*◌, ◌/◌, ◌%◌, ◌^◌, List, [], ◌∷◌, ◌++◌, ltb, leb, ◌==◌, if◌then◌else◌,
  update,
}
use os_memory_management.Strings.{copy_up}

-- `crt_buf`, `crt_pos`, the cursor of the controller and the bytes printed.
pub record Screen : Type 0 where
  pub cells : ℕ → ℕ
  pub pos : ℕ
  pub cursor : ℕ
  pub printed : List ℕ

-- `CRT_COLS` and `CRT_SIZE`
abbrev pub crt_cols : ℕ
crt_cols = 80

abbrev pub crt_size : ℕ
crt_size = 2000

-- `if (!(c & ~0xFF)) c |= 0x0700`
unfoldable pub with_colour : ℕ → ℕ
with_colour c = if c / 256 == 0 then c + 0x700 else c

-- `crt_pos -= (crt_pos % CRT_COLS)`
unfoldable pub line_start : Screen → Screen
line_start s = record s { pos = s.pos - s.pos % crt_cols }

-- The switch of cga_putc, but for '\t'. `crt_pos` and the cells are uint16.
unfoldable pub put : ℕ → Screen → Screen
unfolding line_start
put c s =
    let low = c % 256 in
    if low == 8
    then if ltb 0 s.pos
      then record s {
        pos = s.pos - 1;
        cells = update s.cells (s.pos - 1) ((c - low + 32) % 2 ^ 16);
      }
      else s
    else if low == 10
    then line_start (record s { pos = (s.pos + crt_cols) % 2 ^ 16 })
    else if low == 13
    then line_start s
    else record s { cells = update s.cells s.pos (c % 2 ^ 16); pos = (s.pos + 1) % 2 ^ 16 }

-- `crt_buf[i] = 0x0700 | ' '` for `n` cells from `i` on.
unfoldable pub blank : ℕ → ℕ → (ℕ → ℕ) → ℕ → ℕ
blank zero i cells = cells
blank (suc n) i cells = blank n (i + 1) (update cells i 0x720)

-- The cells a line further up, with a blank last line.
unfoldable pub scroll_cells : (ℕ → ℕ) → ℕ → ℕ
scroll_cells cells =
    blank crt_cols (crt_size - crt_cols) (copy_up (crt_size - crt_cols) 0 crt_cols cells)

-- The end of cga_putc: scroll where the position is behind the last cell.
unfoldable pub scroll : Screen → Screen
scroll s =
    if leb crt_size s.pos
    then record s { cells = scroll_cells s.cells; pos = s.pos - crt_cols }
    else s

unfoldable pub set_cursor : Screen → Screen
set_cursor s = record s { cursor = s.pos / 256 % 256 * 256 + s.pos % 256 }

-- cons_putc and cga_putc of a character that is not '\t'.
unfoldable pub put_plain : ℕ → Screen → Screen
unfolding with_colour put scroll set_cursor
put_plain c s = set_cursor (scroll (put (with_colour c) s))

abbrev print : ℕ → Screen → Screen
print c s = record s { printed = s.printed ++ (c % 256) ∷ [] }

-- `cons_putc(' ')`
unfoldable pub put_blank : Screen → Screen
unfolding put_plain
put_blank s = put_plain 32 (print 32 s)

-- cga_putc
unfoldable pub cga_putc : ℕ → Screen → Screen
unfolding put_plain put_blank
cga_putc c s =
    if c % 256 == 9
    then set_cursor (scroll (put_blank (put_blank (put_blank (put_blank (put_blank s))))))
    else put_plain c s

-- cons_putc
unfoldable pub cons_putc : ℕ → Screen → Screen
unfolding cga_putc
cons_putc c s = cga_putc c (print c s)
