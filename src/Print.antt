-- ===== src/Print.antt =====
-- lib/printfmt.c (vsnprintf), lib/printf.c and kern/printf.c: where formatted output goes, to a buffer, to
-- the system call sys_cputs, or to the kernel's screen. A count is a number, as no output is as long as an
-- int.
pub mod Bounded
pub mod Flushed
use os_memory_management.Base.{
  ℕ, zero, suc, ◌+◌, ◌-◌, ◌%◌, ◌^◌, Bool, true, false, ◌||◌, List, [], ◌∷◌, ◌++◌, Option, none,
  some, ltb, ◌==◌, if◌then◌else◌, update, Run, ok, ◌>>=◌,
}
use os_memory_management.Strings.{Memory}
use os_memory_management.Format.{vprintfmt, plain}
use os_memory_management.Screen.{Screen, cons_putc}

-- `struct sprintbuf`, and the memory
pub record SprintBuf : Type 0 where
  pub memory : Memory
  pub buf : ℕ
  pub ebuf : ℕ
  pub cnt : ℕ

unfoldable pub sprintputch : ℕ → SprintBuf → SprintBuf
sprintputch ch b =
    if ltb b.buf b.ebuf
    then record b { cnt = b.cnt + 1; memory = update b.memory b.buf (ch % 256); buf = b.buf + 1 }
    else record b { cnt = b.cnt + 1 }

unfoldable pub sprint_all : List ℕ → SprintBuf → SprintBuf
unfolding sprintputch
sprint_all [] b = b
sprint_all (c ∷ cs) b = sprint_all cs (sprintputch c b)

-- The end of vsnprintf, given the output of vprintfmt
unfoldable pub sprint_end : ℕ → ℕ → Memory → List ℕ → ℕ × Memory
unfolding sprint_all
sprint_end buf n m out =
    let b = sprint_all out (record { memory = m; buf = buf; ebuf = buf + n - 1; cnt = 0 }) in
    (b.cnt, update b.memory b.buf 0)

-- vsnprintf: `none` is -E_INVAL.
unfoldable pub vsnprintf : (ℕ → List ℕ) → ℕ → ℕ → List ℕ → List ℕ → Memory → Run (Option ℕ × Memory)
unfolding vprintfmt sprint_end
vsnprintf text buf n fmt args m =
    if buf == 0 || ltb n 1
    then ok (none, m)
    else vprintfmt text fmt plain args
      >>= (λ out. let r = sprint_end buf n m out in ok (some r.0, r.1))

-- `struct printbuf` of lib/printf.c, and what sys_cputs was called with
pub record PrintBuf : Type 0 where
  pub idx : ℕ
  pub cnt : ℕ
  pub buf : ℕ → ℕ
  pub sent : List (List ℕ)

-- The first `n` characters of a buffer
unfoldable pub chunk : (ℕ → ℕ) → ℕ → List ℕ
chunk buf zero = []
chunk buf (suc n) = chunk buf n ++ buf n ∷ []

-- `sys_cputs(b->buf, b->idx)`
unfoldable pub send : PrintBuf → PrintBuf
unfolding chunk
send b = record b { sent = b.sent ++ chunk b.buf b.idx ∷ [] }

-- putch of lib/printf.c
unfoldable pub putch : ℕ → PrintBuf → PrintBuf
unfolding send
putch ch b =
    let b1 = record b { buf = update b.buf b.idx (ch % 256); idx = b.idx + 1 } in
    if b1.idx == 256 - 1
    then record (send b1) { idx = 0; cnt = b1.cnt + 1 }
    else record b1 { cnt = b1.cnt + 1 }

unfoldable pub putch_all : List ℕ → PrintBuf → PrintBuf
unfolding putch
putch_all [] b = b
putch_all (c ∷ cs) b = putch_all cs (putch c b)

-- vcprintf of lib/printf.c: the count, and the calls of sys_cputs; the buffer is not initialized.
unfoldable pub vcprintf : (ℕ → List ℕ) → List ℕ → List ℕ → (ℕ → ℕ) → Run (ℕ × List (List ℕ))
unfolding vprintfmt putch_all send
vcprintf text fmt args buf = vprintfmt text fmt plain args >>= (λ out.
    let b = send (putch_all out (record { idx = 0; cnt = 0; buf = buf; sent = [] })) in
    ok (b.cnt, b.sent))

-- putch of kern/printf.c for every character: `*cnt++` moves the pointer and counts nothing.
unfoldable pub cputchar_all : List ℕ → Screen → Screen
unfolding cons_putc
cputchar_all [] s = s
cputchar_all (c ∷ cs) s = cputchar_all cs (cons_putc c s)

-- vcprintf of kern/printf.c: its result, and the screen
unfoldable pub kernel_vcprintf : (ℕ → List ℕ) → List ℕ → List ℕ → Screen → Run (ℕ × Screen)
unfolding vprintfmt cputchar_all
kernel_vcprintf text fmt args s =
    vprintfmt text fmt plain args >>= (λ out. ok (0, cputchar_all out s))
