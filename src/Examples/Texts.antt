-- ===== src/Examples/Texts.antt =====
-- lib/string.c at a concrete memory.
use os_memory_management.Base.{ℕ, ◌<◌, ◌≤◌, ◌⊎◌, ◌≡◌, ◌+◌, refl, arith, update}
use os_memory_management.Strings.{Memory, memmove, strlcpy}
use os_memory_management.Strings.Move.{Moved, memmove-Moved}
use os_memory_management.Strings.Bounded.{strlcpy_bound}
use os_memory_management.Strings.Length.{IsString}

-- The string of two characters at 100.
abbrev text : Memory
text = update (update (λ a. 0) 100 65) 101 66

text-IsString : IsString text 100 2
text-IsString = record { full = λ j lt. ground arith; end = refl }

memmove_example : Moved 101 100 2 text (memmove 101 100 2 text)
memmove_example = memmove-Moved 101 100 2 text

strlcpy_example :
    let r = strlcpy 200 100 2 text in
    (r.0 < 2) × (r.1 (200 + r.0) ≡ 0) × ((a : ℕ) → (a < 200) ⊎ (200 + 2 ≤ a) → r.1 a ≡ text a)
strlcpy_example = strlcpy_bound 200 100 2 text (omega arith)
