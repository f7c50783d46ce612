-- ===== src/Strings/Parsed.antt =====
-- strtol of lib/string.c reads back what printnum of lib/printfmt.c prints.
use mathlib.Core.Path.{subst}
use os_memory_management.Base.{
  ℕ, zero, suc, ◌+◌, ◌-◌, ◌*◌, ◌%◌, ◌^◌, ◌≤◌, ◌<◌, ◌≡◌, refl, sym, ap, ◌∙◌, arith, Bool, true,
  false, none, some, List, [], ◌∷◌, ◌++◌, All, length, ◌==◌, if◌then◌else◌, ok, returns,
}
use os_memory_management.Strings.{Memory}
use os_memory_management.Strings.Numbers.{
  digit_in, skip_space, strtol_digits, strtol_prefix, strtol_from, strtol,
}
use os_memory_management.Format.{digit, pads, printnum}
use os_memory_management.Format.Digits.{IsDigit, read_digits, digit_value, printnum-Printed}

-- The characters stand in the memory from `s` on.
abbrev pub Holds : Memory → ℕ → List ℕ → Type 0
Holds m s [] = Unit {0}
Holds m s (c ∷ cs) = (m s ≡ c) × Holds m (s + 1) cs

digit_in-digit : (d : ℕ) → d < 10 → digit_in 10 (digit d) ≡ some d
unfolding digit_in
digit_in-digit d lt = ground arith

digit_in-zero : digit_in 10 0 ≡ none
unfolding digit_in
digit_in-zero = refl

digit_small : (d : ℕ) → d < 10 → digit_value (digit d) ≡ d
digit_small d lt = ground arith

-- A step of the loop, at a digit and at the end of the text
digit_step :
    (fuel s val d : ℕ) (m : Memory)
    → m s ≡ digit d
    → d < 10
    → strtol_digits (suc fuel) s 10 val m
      ≡ strtol_digits fuel (s + 1) 10 ((val * 10 + d) % 2 ^ 32) m
unfolding strtol_digits
digit_step fuel s val d m here lt =
    let e : digit_in 10 (m s) ≡ some d = ap (digit_in 10) here ∙ digit_in-digit d lt in
    rw (e, strtol_digits) refl

end_step :
    (fuel s val : ℕ) (m : Memory) → m s ≡ 0 → strtol_digits (suc fuel) s 10 val m ≡ ok (val, s)
unfolding strtol_digits
end_step fuel s val m e =
    let q : digit_in 10 (m s) ≡ none = ap (digit_in 10) e ∙ digit_in-zero in
    rw (q, strtol_digits) refl

read_digits_mono :
    (acc acc' : ℕ) (cs : List ℕ) → acc ≤ acc' → read_digits 10 acc cs ≤ read_digits 10 acc' cs
read_digits_mono acc acc' [] le = le
read_digits_mono acc acc' (c ∷ cs) le =
    read_digits_mono (acc * 10 + digit_value c) (acc' * 10 + digit_value c) cs (omega (arith, le))

read_digits_above : (acc : ℕ) (cs : List ℕ) → acc ≤ read_digits 10 acc cs
read_digits_above acc [] = omega arith
read_digits_above acc (c ∷ cs) = omega (arith, read_digits_above (acc * 10 + digit_value c) cs)

digits_lem :
    (cs : List ℕ) (fuel s val : ℕ) (m : Memory)
    → All (IsDigit 10) cs
    → Holds m s (cs ++ 0 ∷ [])
    → length cs < fuel
    → read_digits 10 val cs < 2 ^ 32
    → strtol_digits fuel s 10 val m ≡ ok (read_digits 10 val cs, s + length cs)
digits_lem cs zero s val m are held enough small = absurd (omega arith)
digits_lem [] (suc fuel) s val m are held enough small =
    end_step fuel s val m held.0 ∙ ap (λ p. ok (val, p)) (omega arith)
digits_lem (c ∷ cs) (suc fuel) s val m ((d, lt, e), are) held enough small =
    let value : digit_value c ≡ d = ap digit_value e ∙ digit_small d lt in
    let next : (val * 10 + d) % 2 ^ 32 ≡ val * 10 + digit_value c =
      omega (arith, value, small, read_digits_above (val * 10 + digit_value c) cs) in
    digit_step fuel s val d m (held.0 ∙ e) lt
    ∙ ap (λ v. strtol_digits fuel (s + 1) 10 v m) next
    ∙ digits_lem cs fuel (s + 1) (val * 10 + digit_value c) m are held.1 (omega arith) small
    ∙ ap (λ p. ok (read_digits 10 val (c ∷ cs), p)) (omega arith)

-- No space, sign or prefix stands before the digits.
no_space : (fuel s : ℕ) (m : Memory) → 48 ≤ m s → skip_space (suc fuel) s m ≡ ok s
unfolding skip_space
no_space fuel s m le = ground (arith, le)

sign_space : (fuel s : ℕ) (m : Memory) → m s ≡ 45 → skip_space (suc fuel) s m ≡ ok s
unfolding skip_space
sign_space fuel s m e = rw e refl

prefix_ten : (s : ℕ) (m : Memory) → strtol_prefix s 10 m ≡ (s, 10)
unfolding strtol_prefix
prefix_ten s m = refl

from_ten :
    (fuel s v e : ℕ) (neg : Bool) (m : Memory)
    → strtol_digits fuel s 10 0 m ≡ ok (v, e)
    → strtol_from fuel s neg 10 m ≡ ok (if neg then (2 ^ 32 - v) % 2 ^ 32 else v, e)
unfolding strtol_from
from_ten fuel s v e neg m h = rw (prefix_ten s m, h) refl

strtol-plain :
    (fuel s v e : ℕ) (m : Memory)
    → 48 ≤ m s
    → strtol_digits (suc fuel) s 10 0 m ≡ ok (v, e)
    → strtol (suc fuel) s 10 m ≡ ok (v, e)
unfolding strtol
strtol-plain fuel s v e m le h =
    let minus : (m s == 45) ≡ false = ground (arith, le) in
    let plus : (m s == 43) ≡ false = ground (arith, le) in
    rw (no_space fuel s m le, minus, plus) (from_ten (suc fuel) s v e false m h)

strtol-minus :
    (fuel s v e : ℕ) (m : Memory)
    → m s ≡ 45
    → strtol_digits (suc fuel) (s + 1) 10 0 m ≡ ok (v, e)
    → strtol (suc fuel) s 10 m ≡ ok ((2 ^ 32 - v) % 2 ^ 32, e)
unfolding strtol
strtol-minus fuel s v e m q h =
    rw (sign_space fuel s m q, q) (from_ten (suc fuel) (s + 1) v e true m h)

digit-ge : (d : ℕ) → d < 10 → 48 ≤ digit d
digit-ge d lt = ground arith

first_digit :
    (cs : List ℕ) (m : Memory) (s : ℕ)
    → All (IsDigit 10) cs
    → 0 < length cs
    → Holds m s (cs ++ 0 ∷ [])
    → 48 ≤ m s
first_digit [] m s are pos held = absurd (omega arith)
first_digit (c ∷ cs) m s ((d, lt, e), are) pos held = omega (arith, held.0, e, digit-ge d lt)

-- The text of a number, with a minus sign before the negative ones
abbrev pub signed : Bool → List ℕ → List ℕ
signed true cs = 45 ∷ cs
signed false cs = cs

read_signed :
    (cs : List ℕ) (num fuel s : ℕ) (neg : Bool) (m : Memory)
    → All (IsDigit 10) cs
    → 0 < length cs
    → read_digits 10 0 cs ≡ num
    → num < 2 ^ 32
    → Holds m s (signed neg cs ++ 0 ∷ [])
    → length cs + 1 < suc fuel
    → strtol (suc fuel) s 10 m
      ≡ ok (if neg then (2 ^ 32 - num) % 2 ^ 32 else num, s + length (signed neg cs))
read_signed cs num fuel s true m are pos value small held enough =
    strtol-minus fuel s num (s + suc (length cs)) m held.0 (
      digits_lem cs (suc fuel) (s + 1) 0 m are held.1 (omega arith) (omega (arith, value, small))
      ∙ ap (λ v. ok (v, s + 1 + length cs)) value
      ∙ ap (λ p. ok (num, p)) (omega arith))
read_signed cs num fuel s false m are pos value small held enough =
    strtol-plain fuel s num (s + length cs) m (first_digit cs m s are pos held) (
      digits_lem cs (suc fuel) s 0 m are held (omega arith) (omega (arith, value, small))
      ∙ ap (λ v. ok (v, s + length cs)) value)

ok_injective : {A : Type 0} {x y : A} → ok x ≡ ok y → x ≡ y
ok_injective q = cc

no_pads : (ds : List ℕ) → pads (0 - length ds) 32 ++ ds ≡ ds
unfolding pads
no_pads ds = let z : 0 - length ds ≡ 0 = omega arith in ap (λ n. pads n 32 ++ ds) z

-- strtol in base 10 reads back the text that printnum prints without padding, to the 0 at its end: the
-- number, and its negation in two's complement where a minus sign stands before it. The number is
-- below 2^32, and the fuel is more than the characters.
pub strtol-printnum :
    (num fuel s : ℕ) (neg : Bool) (m : Memory) (out : List ℕ)
    → num < 2 ^ 32
    → printnum 64 num 10 0 32 ≡ ok out
    → Holds m s (signed neg out ++ 0 ∷ [])
    → length out + 1 < fuel
    → strtol fuel s 10 m
      ≡ ok (if neg then (2 ^ 32 - num) % 2 ^ 32 else num, s + length (signed neg out))
strtol-printnum num zero s neg m out small q held enough = absurd (omega arith)
strtol-printnum num (suc fuel) s neg m out small q held enough =
    elim (printnum-Printed 64 num 10 0 32 (omega arith) (omega arith) (omega (arith, small))
      (omega arith)) [
        | returns out' e v ↦
            let same : out ≡ v.digits = ok_injective (sym q ∙ e) ∙ v.layout ∙ no_pads v.digits in
            read_signed v.digits num fuel s neg m v.are_digits v.some_digit v.value small
              (subst (λ l. Holds m s (signed neg l ++ 0 ∷ [])) same held)
              (omega (arith, ap length same, enough))
            ∙ ap (λ l. ok (if neg then (2 ^ 32 - num) % 2 ^ 32 else num, s + length (signed neg l)))
                (sym same)
      ]
