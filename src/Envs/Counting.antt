-- ===== src/Envs/Counting.antt =====
-- How often an environment stands in the lists of kern/sched.c and kern/user_environment.c: weights, of which
-- the length and the number of occurrences are instances.
use os_memory_management.Base.{
  ℕ, zero, suc, ◌+◌, ◌≡◌, refl, ap, ◌∙◌, arith, ◌&&◌, List, [], ◌∷◌, ◌++◌, length, leb, ltb, ◌==◌,
  if◌then◌else◌,
}
use os_memory_management.Envs.Init.{upto}

-- What the elements weigh together
abbrev pub weigh : (ℕ → ℕ) → List ℕ → ℕ
weigh w [] = 0
weigh w (x ∷ xs) = w x + weigh w xs

abbrev pub spot : ℕ → ℕ → ℕ
spot a x = if x == a then 1 else 0

-- How often `a` stands in a list
abbrev pub occurs : ℕ → List ℕ → ℕ
occurs a xs = weigh (spot a) xs

pub weigh-append : (w : ℕ → ℕ) (xs ys : List ℕ) → weigh w (xs ++ ys) ≡ weigh w xs + weigh w ys
weigh-append w [] ys = omega arith
weigh-append w (x ∷ xs) ys = omega (arith, weigh-append w xs ys)

-- An element less
pub weigh_split :
    (w : ℕ → ℕ) (us vs ns : List ℕ) (e : ℕ)
    → ns ≡ us ++ e ∷ vs
    → weigh w ns ≡ w e + weigh w (us ++ vs)
weigh_split w us vs ns e q =
    ap (weigh w) q ∙ omega (arith, weigh-append w us (e ∷ vs), weigh-append w us vs)

-- An element more, at the end
pub weigh_snoc : (w : ℕ → ℕ) (xs : List ℕ) (e : ℕ) → weigh w (xs ++ e ∷ []) ≡ w e + weigh w xs
weigh_snoc w xs e = omega (arith, weigh-append w xs (e ∷ []))

pub weigh-length : (xs : List ℕ) → weigh (λ x. 1) xs ≡ length xs
weigh-length [] = refl
weigh-length (x ∷ xs) = omega (arith, weigh-length xs)

pub occurs-upto : (a k n : ℕ) → occurs a (upto k n) ≡ (if leb k a && ltb a (k + n) then 1 else 0)
occurs-upto a k zero = ground arith
occurs-upto a k (suc n) = ground (arith, occurs-upto a (suc k) n)
