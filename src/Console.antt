-- ===== src/Console.antt =====
-- kern/console.c: the circular buffer of typed characters. What a device has to give is the list of what
-- its procedure returns before it returns -1.
pub mod Fifo
use os_memory_management.Base.{
  ℕ, zero, suc, ◌+◌, ◌%◌, Bool, true, false, List, [], ◌∷◌, ltb, ◌==◌, if◌then◌else◌, update, Run,
  ok, fault, ◌>>=◌, ◌>>◌, guard,
}

-- `cons`
pub record Cons : Type 0 where
  pub buf : ℕ → ℕ
  pub rpos : ℕ
  pub wpos : ℕ

-- `CONSBUFSIZE`
abbrev pub cons_buf_size : ℕ
cons_buf_size = 512

-- The step of an index: back to 0 at the end of the buffer.
unfoldable pub next_pos : ℕ → ℕ
next_pos i = if i + 1 == cons_buf_size then 0 else i + 1

-- Store a character.
unfoldable pub store : ℕ → Cons → Run Cons
unfolding next_pos
store c s =
    if ltb s.wpos cons_buf_size
    then ok (record s { buf = update s.buf s.wpos (c % 256); wpos = next_pos s.wpos })
    else fault

-- cons_intr
unfoldable pub cons_intr : List ℕ → Cons → Run Cons
unfolding store
cons_intr [] s = ok s
cons_intr (c ∷ cs) s =
    let rest = λ (s1 : Cons). cons_intr cs s1 in if c == 0 then rest s else store c s >>= rest

-- The end of cons_getc: the next character of the buffer, or 0.
unfoldable pub take_char : Cons → Run (ℕ × Cons)
unfolding next_pos
take_char s =
    if s.rpos == s.wpos
    then ok (0, s)
    else if ltb s.rpos cons_buf_size
    then ok (s.buf s.rpos, record s { rpos = next_pos s.rpos })
    else fault

-- cons_getc: polls the serial line, if there is one, and the keyboard.
unfoldable pub cons_getc : Bool → List ℕ → List ℕ → Cons → Run (ℕ × Cons)
unfolding cons_intr take_char
cons_getc serial_exists serial kbd s =
    cons_intr (if serial_exists then serial else []) s
    >>= (λ s1. cons_intr kbd s1 >>= (λ s2. take_char s2))

-- The poll of one device by cons_getc2: its procedure is called once, and `none` stands for -1.
unfoldable pub poll_once : List ℕ → Cons → Run Cons
unfolding store
poll_once [] s = ok s
poll_once (c ∷ cs) s = if c == 0 then ok s else store c s

-- cons_getc2: a character is taken only where the keyboard has given one.
unfoldable pub cons_getc2 : Bool → List ℕ → List ℕ → Cons → Run (ℕ × Cons)
unfolding poll_once take_char
cons_getc2 serial_exists serial kbd s =
    poll_once (if serial_exists then serial else []) s >>= (λ s1. poll_once kbd s1 >>= (λ s2.
      elim kbd [ [] ↦ ok (0, s2) | c ∷ cs ↦ if ltb 0 c then take_char s2 else ok (0, s2) ]))
