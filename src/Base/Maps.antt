-- ===== src/Base/Maps.antt =====
-- Arrays and memory as functions of an index, and what holds of every item of a list.
use Prim.Native.Nat.{ℕ, suc, ◌+◌, ◌<◌, ◌≤◌}
use native.Mathlib.Decide.{dec_lt}
use native.Mathlib.Omega.{arith}
use mathlib.Core.Path.{◌≡◌, sym, subst}
use mathlib.Core.Logic.{◌≢◌}
use mathlib.Core.List.{List, [], ◌∷◌, ◌++◌}
use os_memory_management.Base.Tests.{◌==◌, if◌then◌else◌}

-- The array `f` with `v` at `k`.
abbrev pub update {ℓ} : {A : Type ℓ} → (ℕ → A) → ℕ → A → ℕ → A
update f k v a = if a == k then v else f a

pub update_self {ℓ} : {A : Type ℓ} (f : ℕ → A) (k : ℕ) (v : A) → update f k v k ≡ v
update_self f k v = ground arith

pub update-ne {ℓ} : {A : Type ℓ} (f : ℕ → A) (k a : ℕ) (v : A) → k ≢ a → update f k v a ≡ f a
update-ne f k a v h = ground arith

-- What holds below `k` and at `k`.
pub below_suc {ℓ} :
    (P : ℕ → Type ℓ) (k : ℕ) → ((j : ℕ) → j < k → P j) → P k → (j : ℕ) → j < suc k → P j
below_suc P k before here j lt = elim (dec_lt j k) [
  | yes h ↦ before j h
  | no h ↦ let e : k ≡ j = omega arith in subst P e here
]

-- What holds of `i` and of all indices after it.
pub from_next {ℓ} :
    (P : ℕ → Type ℓ) (i : ℕ) → P i → ((j : ℕ) → i + 1 ≤ j → P j) → (j : ℕ) → i ≤ j → P j
from_next P i here after j le = elim (dec_lt i j) [
  | yes lt ↦ after j (omega arith)
  | no nlt ↦ let e : i ≡ j = omega arith in subst P e here
]

abbrev pub All {ℓ κ} : {A : Type ℓ} → (A → Type κ) → List A → Type κ
All P [] = Unit
All P (x ∷ xs) = P x × All P xs

-- `k` is none of the items.
abbrev pub Avoids : ℕ → List ℕ → Type 0
Avoids k xs = All (λ x. x ≢ k) xs

abbrev pub Distinct : List ℕ → Type 0
Distinct [] = Unit
Distinct (x ∷ xs) = Avoids x xs × Distinct xs

pub All-append {ℓ κ} :
    {A : Type ℓ} (P : A → Type κ) (xs ys : List A) → All P xs → All P ys → All P (xs ++ ys)
All-append P [] ys h k = k
All-append P (x ∷ xs) ys h k = (h.0, All-append P xs ys h.1 k)

pub All-left {ℓ κ} : {A : Type ℓ} (P : A → Type κ) (xs ys : List A) → All P (xs ++ ys) → All P xs
All-left P [] ys h = tt
All-left P (x ∷ xs) ys h = (h.0, All-left P xs ys h.1)

pub All-right {ℓ κ} : {A : Type ℓ} (P : A → Type κ) (xs ys : List A) → All P (xs ++ ys) → All P ys
All-right P [] ys h = h
All-right P (x ∷ xs) ys h = All-right P xs ys h.1

pub Avoids-insert :
    (k x : ℕ) (xs ys : List ℕ) → Avoids k (xs ++ ys) → x ≢ k → Avoids k (xs ++ x ∷ ys)
Avoids-insert k x xs ys h ne =
    All-append (λ a. a ≢ k) xs (x ∷ ys) (All-left (λ a. a ≢ k) xs ys h)
      (ne, All-right (λ a. a ≢ k) xs ys h)

pub Avoids-delete :
    (k x : ℕ) (xs ys : List ℕ) → Avoids k (xs ++ x ∷ ys) → (x ≢ k) × Avoids k (xs ++ ys)
Avoids-delete k x [] ys h = h
Avoids-delete k x (y ∷ xs) ys h = let (ne, rest) = Avoids-delete k x xs ys h.1 in (ne, (h.0, rest))

pub Distinct-insert :
    (x : ℕ) (xs ys : List ℕ) → Distinct (xs ++ ys) → Avoids x (xs ++ ys) → Distinct (xs ++ x ∷ ys)
Distinct-insert x [] ys d h = (h, d)
Distinct-insert x (y ∷ xs) ys d h =
    (Avoids-insert y x xs ys d.0 (λ e. h.0 (sym e)), Distinct-insert x xs ys d.1 h.1)

pub Distinct-delete :
    (x : ℕ) (xs ys : List ℕ) → Distinct (xs ++ x ∷ ys) → Distinct (xs ++ ys) × Avoids x (xs ++ ys)
Distinct-delete x [] ys d = (d.1, d.0)
Distinct-delete x (y ∷ xs) ys d =
    let (ne, rest) = Avoids-delete y x xs ys d.0 in
    let (d', out) = Distinct-delete x xs ys d.1 in ((rest, d'), ((λ e. ne (sym e)), out))

pub Distinct-left : (xs ys : List ℕ) → Distinct (xs ++ ys) → Distinct xs
Distinct-left [] ys d = tt
Distinct-left (x ∷ xs) ys d = (All-left (λ a. a ≢ x) xs ys d.0, Distinct-left xs ys d.1)

pub Distinct-right : (xs ys : List ℕ) → Distinct (xs ++ ys) → Distinct ys
Distinct-right [] ys d = d
Distinct-right (x ∷ xs) ys d = Distinct-right xs ys d.1

-- An item of the first part is none of the second.
pub Distinct-apart : (x : ℕ) (xs ys : List ℕ) → Distinct (xs ++ x ∷ ys) → Avoids x ys × Avoids x xs
Distinct-apart x xs ys d =
    let (d', out) = Distinct-delete x xs ys d in
    (All-right (λ a. a ≢ x) xs ys out, All-left (λ a. a ≢ x) xs ys out)
