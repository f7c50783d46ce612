-- ===== src/Envs/Statuses.antt =====
-- Lists of environments that all have one status, and what a change of one status leaves.
use mathlib.Core.Path.{subst}
use os_memory_management.Base.{
  ℕ, ◌≡◌, ◌≢◌, sym, ◌∙◌, List, [], ◌∷◌, ◌++◌, All, All-append, All-left, All-right, Avoids, update,
  update-ne,
}
use os_memory_management.Queue.Seg.{Disjoint}

abbrev pub HasStatus : (ℕ → ℕ) → ℕ → List ℕ → Type 0
HasStatus st v xs = All (λ e. st e ≡ v) xs

pub HasStatus-Avoids :
    (st : ℕ → ℕ) (v k : ℕ) (xs : List ℕ) → HasStatus st v xs → st k ≢ v → Avoids k xs
HasStatus-Avoids st v k [] h ne = tt
HasStatus-Avoids st v k (x ∷ xs) h ne =
    ((λ e. ne (subst (λ a. st a ≡ v) e h.0)), HasStatus-Avoids st v k xs h.1 ne)

pub HasStatus-Disjoint :
    (st : ℕ → ℕ) (v w : ℕ) (xs ys : List ℕ)
    → HasStatus st v xs
    → HasStatus st w ys
    → v ≢ w
    → Disjoint xs ys
HasStatus-Disjoint st v w [] ys h k ne = tt
HasStatus-Disjoint st v w (x ∷ xs) ys h k ne =
    (HasStatus-Avoids st w x ys k (λ e. ne (sym h.0 ∙ e)), HasStatus-Disjoint st v w xs ys h.1 k ne)

pub HasStatus-update :
    (st : ℕ → ℕ) (v k w : ℕ) (xs : List ℕ)
    → Avoids k xs
    → HasStatus st v xs
    → HasStatus (update st k w) v xs
HasStatus-update st v k w [] out h = tt
HasStatus-update st v k w (x ∷ xs) out h =
    (update-ne st k x w (λ e. out.0 (sym e)) ∙ h.0, HasStatus-update st v k w xs out.1 h.1)

-- One more element that the first list avoids
pub Disjoint-append_one :
    (e : ℕ) (xs ys : List ℕ) → Disjoint xs ys → Avoids e xs → Disjoint xs (ys ++ e ∷ [])
Disjoint-append_one e [] ys h out = tt
Disjoint-append_one e (x ∷ xs) ys h out = (
  All-append (λ b. b ≢ x) ys (e ∷ []) h.0 ((λ q. out.0 (sym q)), tt),
  Disjoint-append_one e xs ys h.1 out.1,
)

pub Disjoint-cons : (e : ℕ) (xs ys : List ℕ) → Disjoint xs ys → Avoids e xs → Disjoint xs (e ∷ ys)
Disjoint-cons e [] ys h out = tt
Disjoint-cons e (x ∷ xs) ys h out = (((λ q. out.0 (sym q)), h.0), Disjoint-cons e xs ys h.1 out.1)

-- What holds of two lists in a row holds of them the other way round.
pub All-swap {ℓ κ} :
    {A : Type ℓ} (P : A → Type κ) (xs ys : List A) → All P (xs ++ ys) → All P (ys ++ xs)
All-swap P xs ys h = All-append P ys xs (All-right P xs ys h) (All-left P xs ys h)

pub All-delete {ℓ κ} :
    {A : Type ℓ} (P : A → Type κ) (xs : List A) (x : A) (ys : List A)
    → All P (xs ++ x ∷ ys)
    → P x × All P (xs ++ ys)
All-delete P [] x ys h = h
All-delete P (z ∷ xs) x ys h = let (here, rest) = All-delete P xs x ys h.1 in (here, (h.0, rest))
