-- ===== src/Permissions/Bits.antt =====
-- The bits of the flags that pt_set_page_permissions of kern/memory_manager.c sets and clears.
use Prim.Native.Nat.{min, max, digits, bit_and-bitwise, bit_or-bitwise}
use os_memory_management.Base.{
  ℕ, zero, suc, ◌+◌, ◌-◌, ◌*◌, ◌/◌, ◌%◌, ◌^◌, ◌≤◌, ◌<◌, ◌≡◌, refl, ap, ◌∙◌, arith, ltb, true, false,
  bit_and, bit_or, ◌==◌, if◌then◌else◌,
}
use os_memory_management.Permissions.{set_flags}

-- Bit `i` of a number, the lowest being bit 0
abbrev pub bit : ℕ → ℕ → ℕ
bit zero x = x % 2
bit (suc i) x = bit i (x / 2)

no_bit : (i : ℕ) → bit i 0 ≡ 0
no_bit zero = refl
no_bit (suc i) = no_bit i

-- A bit of a number with a digit `d` put behind it
low_bit : (x d : ℕ) → d < 2 → bit 0 (x * 2 + d) ≡ d
low_bit x d lt = omega arith

high_bit : (i x d : ℕ) → d < 2 → bit (suc i) (x * 2 + d) ≡ bit i x
high_bit i x d lt = let e : (x * 2 + d) / 2 ≡ x = omega arith in ap (bit i) e

bit-conjunction :
    (n i a b : ℕ) → a ≤ n → bit i (digits (λ y. 0) min n a b) ≡ min (bit i a) (bit i b)
bit-conjunction zero i zero b le = omega (arith, no_bit i)
bit-conjunction zero i (suc a) b le = absurd (omega arith)
bit-conjunction (suc n) i zero b le = omega (arith, no_bit i)
bit-conjunction (suc n) zero (suc a) b le =
    low_bit (digits (λ y. 0) min n (suc a / 2) (b / 2)) (min (suc a % 2) (b % 2)) (omega arith)
bit-conjunction (suc n) (suc i) (suc a) b le =
    high_bit i (digits (λ y. 0) min n (suc a / 2) (b / 2)) (min (suc a % 2) (b % 2)) (omega arith)
    ∙ bit-conjunction n i (suc a / 2) (b / 2) (omega arith)

bit-disjunction :
    (n i a b : ℕ) → a ≤ n → bit i (digits (λ y. y) max n a b) ≡ max (bit i a) (bit i b)
bit-disjunction zero i zero b le = omega (arith, no_bit i)
bit-disjunction zero i (suc a) b le = absurd (omega arith)
bit-disjunction (suc n) i zero b le = omega (arith, no_bit i)
bit-disjunction (suc n) zero (suc a) b le =
    low_bit (digits (λ y. y) max n (suc a / 2) (b / 2)) (max (suc a % 2) (b % 2)) (omega arith)
bit-disjunction (suc n) (suc i) (suc a) b le =
    high_bit i (digits (λ y. y) max n (suc a / 2) (b / 2)) (max (suc a % 2) (b % 2)) (omega arith)
    ∙ bit-disjunction n i (suc a / 2) (b / 2) (omega arith)

pub bit-bit_and : (i a b : ℕ) → bit i (bit_and a b) ≡ min (bit i a) (bit i b)
bit-bit_and i a b = ap (bit i) (bit_and-bitwise a b) ∙ bit-conjunction a i a b (omega arith)

pub bit-bit_or : (i a b : ℕ) → bit i (bit_or a b) ≡ max (bit i a) (bit i b)
bit-bit_or i a b = ap (bit i) (bit_or-bitwise a b) ∙ bit-disjunction a i a b (omega arith)

-- The complement of a number of `w` bits
bit-complement :
    (w i c : ℕ) → c < 2 ^ w → bit i (2 ^ w - 1 - c) ≡ (if ltb i w then 1 - bit i c else 0)
bit-complement zero i c small =
    let z : 2 ^ 0 - 1 - c ≡ 0 = omega arith in
    let past : ltb i 0 ≡ false = ground arith in rw (z, past) (no_bit i)
bit-complement (suc w) zero c small =
    let inside : ltb 0 (suc w) ≡ true = ground arith in rw inside (omega (arith, small))
bit-complement (suc w) (suc i) c small =
    let half : (2 ^ suc w - 1 - c) / 2 ≡ 2 ^ w - 1 - c / 2 = omega (arith, small) in
    let same : ltb (suc i) (suc w) ≡ ltb i w = ground arith in
    rw same (ap (bit i) half ∙ bit-complement w i (c / 2) (omega (arith, small)))

pow_pos : (w : ℕ) → 1 ≤ 2 ^ w
pow_pos zero = omega arith
pow_pos (suc w) = omega (arith, pow_pos w)

-- The number of `w` ones
bit_ones : (w i : ℕ) → bit i (2 ^ w - 1) ≡ (if ltb i w then 1 else 0)
bit_ones zero i = let past : ltb i 0 ≡ false = ground arith in rw past (no_bit i)
bit_ones (suc w) zero =
    let inside : ltb 0 (suc w) ≡ true = ground arith in rw inside (omega (arith, pow_pos w))
bit_ones (suc w) (suc i) =
    let half : (2 ^ suc w - 1) / 2 ≡ 2 ^ w - 1 = omega (arith, pow_pos w) in
    let same : ltb (suc i) (suc w) ≡ ltb i w = ground arith in
    rw same (ap (bit i) half ∙ bit_ones w i)

bit_small : (i x : ℕ) → bit i x < 2
bit_small zero x = omega arith
bit_small (suc i) x = bit_small i (x / 2)

-- The bits of `v` are those of `e`, with those of `set` set and then those of `clear` cleared, in 32 bits.
abbrev pub HasFlags : ℕ → ℕ → ℕ → ℕ → Type 0
HasFlags set clear e v =
    (i : ℕ)
    → bit i v
      ≡ (if ltb i 32 then (if bit i clear == 1 then 0 else max (bit i e) (bit i set)) else 0)

-- The bits of `p` are the lowest twelve of `v`.
abbrev pub HasLow : ℕ → ℕ → Type 0
HasLow v p = (i : ℕ) → bit i p ≡ (if ltb i 12 then bit i v else 0)

pub set_flags-HasFlags :
    (set clear e : ℕ) → clear < 2 ^ 32 → HasFlags set clear e (set_flags set clear e)
set_flags-HasFlags set clear e small i =
    bit-bit_and i (bit_or e set) (2 ^ 32 - 1 - clear)
    ∙ ground (
      arith,
      bit-bit_or i e set,
      bit-complement 32 i clear small,
      bit_small i clear,
      bit_small i e,
      bit_small i set,
    )

pub bit_and-HasLow : (v : ℕ) → HasLow v (bit_and v 4095)
bit_and-HasLow v i = bit-bit_and i v 4095 ∙ ground (arith, bit_ones 12 i, bit_small i v)
