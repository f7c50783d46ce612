-- ===== src/Readline.antt =====
-- lib/readline.c: a line is typed, with backspace, into a buffer. The input is what getchar returns, one
-- call after the other; where it ends the loop waits for more. What
-- cprintf prints, the prompt and a read error, is not recorded, and iscons is 1, as in the source.
pub mod Edit
use os_memory_management.Base.{
  ℕ, zero, suc, ◌+◌, ◌-◌, ◌%◌, Bool, true, false, ◌&&◌, ◌||◌, List, [], ◌∷◌, ◌++◌, ltb, leb, ◌==◌,
  if◌then◌else◌, update, Run, ok, out_of_fuel, ◌>>=◌,
}
use os_memory_management.Strings.{Memory}

-- A result of getchar: a character, or an error.
pub data Input : Type 0 where
  typed : ℕ → Input
  failed : Input

-- The memory, what cputchar has echoed, and whether interrupts are enabled.
pub record Reader : Type 0 where
  pub memory : Memory
  pub echo : List ℕ
  pub enabled : Bool

-- `BUFLEN-1`
abbrev pub max_line : ℕ
max_line = 1023

abbrev pub echoed : ℕ → Reader → Reader
echoed c s = record s { echo = s.echo ++ c ∷ [] }

-- The loop of readline and of atomic_readline, with `i` characters in the buffer.
unfoldable pub read_loop : List Input → ℕ → ℕ → Reader → Run Reader
read_loop [] buf i s = out_of_fuel
read_loop (failed ∷ rest) buf i s = ok s
read_loop (typed c ∷ rest) buf i s =
    let go = λ (i' : ℕ) (s' : Reader). read_loop rest buf i' s' in
    let e = echoed c s in
    if leb 32 c && ltb i max_line
    then go (i + 1) (record e { memory = update e.memory (buf + i) (c % 256) })
    else (if c == 8 && ltb 0 i
        then go (i - 1) e
        else (if c == 10 || c == 13
            then ok (record e { memory = update e.memory (buf + i) 0 })
            else go i s))

-- readline
unfoldable pub readline : List Input → ℕ → Reader → Run Reader
unfolding read_loop
readline inputs buf s = read_loop inputs buf 0 s

-- atomic_readline: the same with interrupts disabled.
unfoldable pub atomic_readline : List Input → ℕ → Reader → Run Reader
unfolding read_loop
atomic_readline inputs buf s =
    read_loop inputs buf 0 (record s { enabled = false })
    >>= (λ s1. ok (record s1 { enabled = true }))
