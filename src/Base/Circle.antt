-- ===== src/Base/Circle.antt =====
-- Circular order over the indices below `max`: `(i + 1) % max`.
use native.Mathlib.Decide.{dec_lt}
use native.Mathlib.Nat.{mod_self, mod-eq_of_lt}
use os_memory_management.Base.{
  refl, ap, ℕ, zero, suc, ◌+◌, ◌-◌, ◌%◌, ◌≤◌, ◌<◌, ◌≡◌, ◌≢◌, ap, ◌∙◌, arith, lt_cases, inl, inr,
}

-- The index that `k` steps from `i` reach.
abbrev pub hand : ℕ → ℕ → ℕ → ℕ
hand max i zero = i
hand max i (suc k) = (hand max i k + 1) % max

-- One step does not wrap around, or wraps around to 0.
pub step-near : (max x : ℕ) → x + 1 < max → (x + 1) % max ≡ x + 1
step-near max x h = mod-eq_of_lt h

pub step-wrap : (max x : ℕ) → x + 1 ≡ max → (x + 1) % max ≡ 0
step-wrap max x e = ap (λ y. y % max) e ∙ mod_self max

pub record AtHand (max i k : ℕ) : Type 0 where
  pub near : i + k < max → hand max i k ≡ i + k
  pub wrapped : max ≤ i + k → hand max i k ≡ i + k - max

-- A round of `max` steps, from a valid index.
pub hand_lem : (max i k : ℕ) → i < max → k ≤ max → AtHand max i k
hand_lem max i zero lt le = record { near = λ h. omega arith; wrapped = λ h. omega arith }
hand_lem max i (suc k) lt le =
    let v = hand_lem max i k lt (omega arith) in
    elim (lt_cases (i + k + 1) max) [
      | inl (inl below) ↦
          let e = v.near (omega arith) in
          record {
            near = λ h. rw e (step-near max (i + k) below ∙ omega arith);
            wrapped = λ h. absurd (omega arith);
          }
      | inl (inr end) ↦
          let e = v.near (omega arith) in
          record {
            near = λ h. absurd (omega arith);
            wrapped = λ h. rw e (step-wrap max (i + k) end ∙ omega arith);
          }
      | inr above ↦
          let e = v.wrapped (omega arith) in
          record {
            near = λ h. absurd (omega arith);
            wrapped = λ h. rw e (step-near max (i + k - max) (omega arith) ∙ omega arith);
          }
    ]

pub hand_bound : (max i k : ℕ) → i < max → k ≤ max → hand max i k < max
hand_bound max i k lt le =
    let v = hand_lem max i k lt le in
    elim (dec_lt (i + k) max) [
      | yes below ↦ omega (arith, v.near below)
      | no above ↦ omega (arith, v.wrapped (omega arith))
    ]

-- A round comes back to where it began.
pub hand_round : (max i : ℕ) → i < max → hand max i max ≡ i
hand_round max i lt = omega (arith, (hand_lem max i max lt (omega arith)).wrapped (omega arith))

-- The steps of a round are at different indices.
pub hand_apart : (max i j k : ℕ) → i < max → j < k → k < max → hand max i j ≢ hand max i k
hand_apart max i j k lt jk km e =
    let v = hand_lem max i j lt (omega arith) in
    let w = hand_lem max i k lt (omega arith) in
    elim (dec_lt (i + j) max) [
      | yes a ↦ elim (dec_lt (i + k) max) [
        | yes b ↦ omega (arith, v.near a, w.near b)
        | no b ↦ omega (arith, v.near a, w.wrapped (omega arith))
      ]
      | no a ↦ omega (arith, v.wrapped (omega arith), w.wrapped (omega arith))
    ]

-- A round meets every index.
pub hand_reaches : (max i p : ℕ) → i < max → p < max → (k : ℕ) × (k < max) × (hand max i k ≡ p)
hand_reaches max i p lt pm = elim (dec_lt p i) [
  | yes below ↦
      let v = hand_lem max i (p + max - i) lt (omega arith) in
      (p + max - i, omega arith, omega (arith, v.wrapped (omega arith)))
  | no above ↦
      let v = hand_lem max i (p - i) lt (omega arith) in
      (p - i, omega arith, omega (arith, v.near (omega arith)))
]

-- The steps after the first one.
pub hand-hand : (max i k : ℕ) → hand max (hand max i 1) k ≡ hand max i (suc k)
hand-hand max i zero = refl
hand-hand max i (suc k) = ap (λ x. (x + 1) % max) (hand-hand max i k)
