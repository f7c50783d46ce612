-- ===== src/Format/Digits.antt =====
-- The numbers of lib/printfmt.c.
use mathlib.Core.List.{append_assoc}
use native.Mathlib.Nat.{div-add-mod', mod-lt, le-div_iff_mul-le, div-lt_iff_lt-mul}
use os_memory_management.Base.{
  ℕ, zero, suc, ◌+◌, ◌-◌, ◌*◌, ◌/◌, ◌%◌, ◌^◌, ◌≤◌, ◌<◌, ◌≡◌, ◌≢◌, refl, sym, ap, ◌∙◌, inl, inr,
  arith, Bool-cases, List, [], ◌∷◌, ◌++◌, length, length-append, All, All-append, get_or, ltb, leb,
  leb→le, if◌then◌else◌, Returns, returns,
}
use os_memory_management.Format.{digit, pads, printnum}

-- What a digit stands for, and what a row of digits does, behind the number `acc`.
abbrev pub digit_value : ℕ → ℕ
digit_value c = if ltb c 58 then c - 48 else c - 87

abbrev pub read_digits : ℕ → ℕ → List ℕ → ℕ
read_digits base acc [] = acc
read_digits base acc (c ∷ cs) = read_digits base (acc * base + digit_value c) cs

digit_value-digit : (d : ℕ) → d < 16 → digit_value (digit d) ≡ d
digit_value-digit d lt = ground arith

read_digits-append :
    (base acc d : ℕ) (ds : List ℕ)
    → read_digits base acc (ds ++ d ∷ []) ≡ read_digits base acc ds * base + digit_value d
read_digits-append base acc d [] = refl
read_digits-append base acc d (c ∷ ds) = read_digits-append base (acc * base + digit_value c) d ds

get_or-append : (ds : List ℕ) (d e : ℕ) → 0 < length ds → get_or (ds ++ d ∷ []) 0 e ≡ get_or ds 0 e
get_or-append [] d e pos = absurd (omega arith)
get_or-append (c ∷ ds) d e pos = refl

-- A character that is a digit of the base
abbrev pub IsDigit : ℕ → ℕ → Type 0
IsDigit base c = (d : ℕ) × (d < base) × (c ≡ digit d)

-- The number in the base, without a 0 in front, and behind the padding to the width.
pub record Printed (num base width padc : ℕ) (out : List ℕ) : Type 0 where
  pub digits : List ℕ
  pub layout : out ≡ pads (width - length digits) padc ++ digits
  pub are_digits : All (IsDigit base) digits
  pub some_digit : 0 < length digits
  pub value : read_digits base 0 digits ≡ num
  pub no_zero : 0 < num → get_or digits 0 48 ≢ 48

digit-ne-zero : (d : ℕ) → 0 < d → d < 16 → digit d ≢ 48
digit-ne-zero d pos lt = ground arith

last_digit :
    (num base width padc : ℕ)
    → num < base
    → base ≤ 16
    → Printed num base width padc (pads (width - 1) padc ++ digit (num % base) ∷ [])
last_digit num base width padc lt small =
    let e : num % base ≡ num = grind arith in
    rw e record {
      digits = digit num ∷ [];
      layout = refl;
      are_digits = ((num, lt, refl), tt);
      some_digit = omega arith;
      value = omega (arith, digit_value-digit num (omega arith));
      no_zero = λ pos. digit-ne-zero num pos (omega arith);
    }

more_digits :
    (num base width padc : ℕ) (out : List ℕ)
    → 2 ≤ base
    → base ≤ 16
    → base ≤ num
    → Printed (num / base) base (width - 1) padc out
    → Printed num base width padc (out ++ digit (num % base) ∷ [])
more_digits num base width padc out two small le v =
    let d = num % base in
    let lt : d < base = mod-lt num (omega arith) in
    let len = length-append v.digits (digit d ∷ []) in
    let some_quotient : 0 < num / base =
      (le-div_iff_mul-le {k = base} (omega arith)).1 (omega arith) in
    record {
      digits = v.digits ++ digit d ∷ [];
      layout =
          ap (λ l. l ++ digit d ∷ []) v.layout
          ∙ append_assoc (pads (width - 1 - length v.digits) padc) v.digits (digit d ∷ [])
          ∙ ap (λ n. pads n padc ++ (v.digits ++ digit d ∷ [])) (omega (arith, len));
      are_digits =
          All-append (IsDigit base) v.digits (digit d ∷ []) v.are_digits ((d, lt, refl), tt);
      some_digit = omega (arith, len);
      value =
          read_digits-append base 0 (digit d) v.digits
          ∙ ap (λ n. n * base + digit_value (digit d)) v.value
          ∙ ap (λ n. num / base * base + n) (digit_value-digit d (omega arith))
          ∙ div-add-mod' num base;
      no_zero = λ pos e.
          v.no_zero some_quotient (sym (get_or-append v.digits (digit d) 48 v.some_digit) ∙ e);
    }

halved : (num base fuel : ℕ) → 2 ≤ base → num < 2 ^ suc fuel → num / base < 2 ^ fuel
halved num base fuel two lt = (div-lt_iff_lt-mul {k = base} (omega arith)).1 (grind arith)

bits : (fuel num : ℕ) → 1 < num → num < 2 ^ suc fuel → 0 < fuel
bits zero num big lt = absurd (omega arith)
bits (suc fuel) num big lt = omega arith

-- printnum in a base from 2 to 16 ends, with the digits of the number in this base, without a 0 in front
-- but for the number 0, and behind as much padding as the width leaves. The fuel is the number of bits of
-- the number at least, and not 0.
pub printnum-Printed :
    (fuel num base width padc : ℕ)
    → 2 ≤ base
    → base ≤ 16
    → num < 2 ^ fuel
    → 0 < fuel
    → Returns (Printed num base width padc) (printnum fuel num base width padc)
unfolding printnum
printnum-Printed zero num base width padc two small enough pos = absurd (omega arith)
printnum-Printed (suc fuel) num base width padc two small enough pos =
    elim (Bool-cases (leb base num)) [
      | inr low ↦
          rw low (returns _ refl (last_digit num base width padc (ground (arith, low)) small))
      | inl more ↦
          let le : base ≤ num = leb→le base num more in
          let some_fuel : 0 < fuel = bits fuel num (omega arith) enough in
          elim (printnum-Printed fuel (num / base) base (width - 1) padc two small
            (halved num base fuel two enough) some_fuel) [
              | returns out e v ↦
                  rw (more, e) (returns _ refl (more_digits num base width padc out two small le v))
            ]
    ]
