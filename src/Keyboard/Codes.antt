-- ===== src/Keyboard/Codes.antt =====
-- The characters of the keyboard are bytes, as the console's buffer wants them.
use os_memory_management.Base.{
  ℕ, zero, suc, ◌+◌, ◌<◌, inl, inr, arith, false, Bool-cases, List, [], ◌∷◌, get_or, All,
}
use os_memory_management.Keyboard.{
  Flags, normalmap, shiftmap, ctlmap, special, ctl_special, entry, char_code, other_case, press,
  key_down, kbd_proc_data, kbd_results,
}

get_or_bound : (l : List ℕ) (i : ℕ) → All (λ c. c < 256) l → get_or l i 0 < 256
get_or_bound [] i h = omega arith
get_or_bound (c ∷ l) zero h = h.0
get_or_bound (c ∷ l) (suc i) h = get_or_bound l i h.1

entry_bound :
    (table : List ℕ) (by_index : ℕ → ℕ) (key : ℕ)
    → All (λ c. c < 256) table
    → by_index key < 256
    → entry table by_index key < 256
unfolding entry
entry_bound table by_index key h k = ground (arith, get_or_bound table key h, k)

special_bound : (key : ℕ) → special key < 256
unfolding special
special_bound key = ground arith

ctl_special_bound : (key : ℕ) → ctl_special key < 256
unfolding ctl_special
ctl_special_bound key = ground arith

char_code_bound : (f : Flags) (key : ℕ) → char_code f key < 256
unfolding char_code
char_code_bound f key = elim (Bool-cases f.ctl) [
  | inl c ↦ rw c (entry_bound ctlmap ctl_special key (omega arith) (ctl_special_bound key))
  | inr n ↦ elim (Bool-cases f.shift) [
    | inl c ↦ rw (n, c) (entry_bound shiftmap special key (omega arith) (special_bound key))
    | inr m ↦ rw (n, m) (entry_bound normalmap special key (omega arith) (special_bound key))
  ]
]

other_case_bound : (c : ℕ) → c < 256 → other_case c < 256
unfolding other_case
other_case_bound c lt = ground arith

key_down_bound : (key : ℕ) (f : Flags) → (key_down key f).result < 256
unfolding key_down
key_down_bound key f =
    let c = char_code (press key f) key in
    let b = char_code_bound (press key f) key in
    elim (Bool-cases (press key f).caps) [
      | inl on ↦ rw on (other_case_bound c b)
      | inr off ↦ rw off b
    ]

kbd_proc_data_bound : (b : ℕ) (f : Flags) → (kbd_proc_data b f).result < 256
unfolding kbd_proc_data
kbd_proc_data_bound b f =
    ground (arith, key_down_bound b f, key_down_bound (b + 0x80) (record f { escape = false }))

-- All that kbd_proc_data returns for bytes of the keyboard is a byte, so that the console's buffer
-- takes every character without loss.
kbd_results_bound : (bs : List ℕ) (f : Flags) → All (λ c. c < 256) (kbd_results bs f)
unfolding kbd_results
kbd_results_bound [] f = tt
kbd_results_bound (b ∷ bs) f =
    (kbd_proc_data_bound b f, kbd_results_bound bs (kbd_proc_data b f).flags)
