-- ===== src/Strings/Numbers.antt =====
-- lib/string.c: numbers in text, and the words of a command. A long is a word in two's complement.
use os_memory_management.Base.{
  ℕ, zero, suc, ◌+◌, ◌-◌, ◌*◌, ◌/◌, ◌%◌, ◌^◌, Bool, true, false, ◌&&◌, ◌||◌, Option, none, some,
  ltb, leb, ◌==◌, if◌then◌else◌, update, Run, ok, out_of_fuel, ◌>>=◌,
}
use os_memory_management.Strings.{Memory}

-- `while (*s == ' ' || *s == '\t') s++`
unfoldable pub skip_space : ℕ → ℕ → Memory → Run ℕ
skip_space zero s m = out_of_fuel
skip_space (suc fuel) s m =
    let rest = skip_space fuel (s + 1) m in if m s == 32 || m s == 9 then rest else ok s

-- The digit that a character stands for in bases up to 36
unfoldable pub char_digit : ℕ → Option ℕ
char_digit c =
    if leb 48 c && leb c 57
    then some (c - 48)
    else (if leb 97 c && leb c 122
        then some (c - 97 + 10)
        else (if leb 65 c && leb c 90 then some (c - 65 + 10) else none))

-- The digit in a base, where the character is one
unfoldable pub digit_in : ℕ → ℕ → Option ℕ
unfolding char_digit
digit_in base c = elim (char_digit c) [
  | none ↦ none
  | some dig ↦ if leb base dig then none else some dig
]

-- The loop over the digits: the value, and where it stops
unfoldable pub strtol_digits : ℕ → ℕ → ℕ → ℕ → Memory → Run (ℕ × ℕ)
strtol_digits zero s base val m = out_of_fuel
strtol_digits (suc fuel) s base val m = elim (digit_in base (m s)) [
  | none ↦ ok (val, s)
  | some dig ↦ strtol_digits fuel (s + 1) base ((val * base + dig) % 2 ^ 32) m
]

-- The prefix: where the digits begin, and the base
unfoldable pub strtol_prefix : ℕ → ℕ → Memory → ℕ × ℕ
strtol_prefix s base m =
    if (base == 0 || base == 16) && (m s == 48 && m (s + 1) == 120)
    then (s + 2, 16)
    else (if base == 0 && m s == 48 then (s + 1, 8) else (if base == 0 then (s, 10) else (s, base)))

-- The number behind the sign, negated where that is a minus
unfoldable pub strtol_from : ℕ → ℕ → Bool → ℕ → Memory → Run (ℕ × ℕ)
strtol_from fuel s neg base m =
    let p = strtol_prefix s base m in
    strtol_digits fuel p.0 p.1 0 m >>= (λ r. ok (if neg then (2 ^ 32 - r.0) % 2 ^ 32 else r.0, r.1))

-- strtol: the value, and what is stored at `endptr`
unfoldable pub strtol : ℕ → ℕ → ℕ → Memory → Run (ℕ × ℕ)
strtol fuel s base m = skip_space fuel s m >>= (λ s1.
    if m s1 == 43
    then strtol_from fuel (s1 + 1) false base m
    else (if m s1 == 45
        then strtol_from fuel (s1 + 1) true base m
        else strtol_from fuel s1 false base m))

-- The loop of ltostr that writes the digits, the last one first
unfoldable pub ltostr_digits : ℕ → ℕ → ℕ → ℕ → Memory → Run (ℕ × Memory)
ltostr_digits zero value str s m = out_of_fuel
ltostr_digits (suc fuel) value str s m =
    let m1 = update m (str + s) (value % 10 + 48) in
    let rest = ltostr_digits fuel (value / 10) str (s + 1) m1 in
    if value / 10 % 10 == 0 then ok (s + 1, m1) else rest

-- The loop of ltostr that turns them round; `fuel` bounds its rounds
unfoldable pub reverse_chars : ℕ → ℕ → ℕ → ℕ → Memory → Memory
reverse_chars zero str start end m = m
reverse_chars (suc fuel) str start end m =
    let m1 = update (update m (str + start) (m (str + end))) (str + end) (m (str + start)) in
    if ltb start end then reverse_chars fuel str (start + 1) (end - 1) m1 else m

-- ltostr of a value above -2^31: its magnitude has ten digits at most.
unfoldable pub ltostr : ℕ → ℕ → Memory → Run Memory
unfolding ltostr_digits reverse_chars
ltostr value str m =
    let neg = leb (2 ^ 31) value in
    let m1 = if neg then update m str 45 else m in
    let start : ℕ = if neg then 1 else 0 in
    ltostr_digits 11 (if neg then 2 ^ 32 - value else value) str start m1
    >>= (λ r. ok (update (reverse_chars r.0 str start (r.0 - 1) r.1) (str + r.0) 0))
