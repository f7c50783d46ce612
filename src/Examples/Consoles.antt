-- ===== src/Examples/Consoles.antt =====
-- The console, the screen, the keyboard and the line input at concrete inputs.
use os_memory_management.Base.{refl, arith, true, false, List, [], ◌∷◌, Returns}
use os_memory_management.Console.{Cons, cons_getc}
use os_memory_management.Console.Fifo.{IsQueue, Gives, cons_getc-Gives}
use os_memory_management.Screen.{Screen, cga_putc}
use os_memory_management.Screen.Bounds.{Stays, cga_putc-Stays}
use os_memory_management.Readline.{Input, typed, Reader, readline}
use os_memory_management.Readline.Edit.{HasLine, readline-HasLine}
use os_memory_management.Keyboard.{Flags}

-- A buffer with one character that waits at its last index.
abbrev full_end : Cons
full_end = record { buf = λ a. 65; rpos = 511; wpos = 0 }

full_end-IsQueue : IsQueue full_end (65 ∷ [])
full_end-IsQueue = record {
  start = omega arith;
  room = omega arith;
  end = refl;
  holds = (refl, tt);
}

cons_getc_example :
    Returns (Gives (65 ∷ 66 ∷ 67 ∷ [])) (cons_getc true (66 ∷ []) (0 ∷ 67 ∷ []) full_end)
cons_getc_example =
    cons_getc-Gives true (66 ∷ []) (0 ∷ 67 ∷ []) full_end (65 ∷ []) full_end-IsQueue
      (omega arith, tt) (omega arith, (omega arith, tt)) (omega arith)

-- A screen with the position at the last cell.
abbrev last_cell : Screen
last_cell = record { cells = λ a. 0x720; pos = 1999; cursor = 1999; printed = [] }

cga_putc_example : Stays last_cell (cga_putc 9 last_cell)
cga_putc_example = cga_putc-Stays 9 last_cell (omega arith)

-- "ab", backspace, "c", enter.
abbrev keys : List Input
keys = typed 97 ∷ typed 98 ∷ typed 8 ∷ typed 99 ∷ typed 10 ∷ []

abbrev reader : Reader
reader = record { memory = λ a. 7; echo = []; enabled = true }

readline_example :
    Returns (λ s'. HasLine 100 reader.memory (99 ∷ 97 ∷ []) s'.memory) (readline keys 100 reader)
readline_example = readline-HasLine 100 keys (99 ∷ 97 ∷ []) reader refl

abbrev no_flags : Flags
no_flags = record {
  shift = false;
  ctl = false;
  alt = false;
  caps = false;
  num = false;
  scroll = false;
  escape = false;
}
