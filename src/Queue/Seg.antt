-- ===== src/Queue/Seg.antt =====
-- List segments over the links of inc/queue.h, and the list that a head stands for.
use mathlib.Core.Path.{subst}
use os_memory_management.Base.{
  ℕ, ◌%◌, ◌^◌, ◌≡◌, refl, sym, ◌∙◌, ◌≢◌, false, if◌then◌else◌, ◌==◌, List, [], ◌∷◌, ◌++◌, arith,
  length, All, Avoids, Distinct, Distinct-left,
}
use os_memory_management.Queue.{null, Head, Links, set_next, set_prev}

-- The first element of `xs`, or `q` where there is none; the last one, or `p`.
abbrev pub head_or : List ℕ → ℕ → ℕ
head_or [] q = q
head_or (x ∷ xs) q = x

abbrev pub last_or : ℕ → List ℕ → ℕ
last_or p [] = p
last_or p (x ∷ xs) = last_or x xs

-- The elements `xs` in a row: `p` stands before the first of them and `q` after the last.
abbrev pub Seg : Links → ℕ → List ℕ → ℕ → Type 0
Seg l p [] q = Unit
Seg l p (x ∷ xs) q = (x ≢ null) × (l.prev x ≡ p) × (l.next x ≡ head_or xs q) × Seg l x xs q

-- The list of `h` holds exactly `xs`, in this order.
pub record IsList (h : Head) (l : Links) (xs : List ℕ) : Type 0 where
  pub first_is : h.first ≡ head_or xs null
  pub last_is : h.last ≡ last_or null xs
  pub size_is : h.size ≡ length xs % 2 ^ 32
  pub seg : Seg l null xs null
  pub distinct : Distinct xs

pub null-false : (q : ℕ) → q ≢ null → (q == null) ≡ false
null-false q ne = ground arith

-- A write that is skipped at NULL is made where the element is there.
pub unless_null :
    (P : Links → Type 0) (q : ℕ) (l l' : Links) → q ≢ null → P l' → P (if q == null then l else l')
unless_null P q l l' ne t = subst (λ b. P (if b then l else l')) (sym (null-false q ne)) t

-- A write to an element outside a segment leaves the segment.
pub Seg-set_next :
    (l : Links) (k v p : ℕ) (xs : List ℕ) (q : ℕ)
    → Avoids k xs
    → Seg l p xs q
    → Seg (set_next l k v) p xs q
unfolding set_next
Seg-set_next l k v p [] q out s = tt
Seg-set_next l k v p (x ∷ xs) q out s =
    (s.0, s.1, ground arith, Seg-set_next l k v x xs q out.1 s.3)

pub Seg-set_prev :
    (l : Links) (k v p : ℕ) (xs : List ℕ) (q : ℕ)
    → Avoids k xs
    → Seg l p xs q
    → Seg (set_prev l k v) p xs q
unfolding set_prev
Seg-set_prev l k v p [] q out s = tt
Seg-set_prev l k v p (x ∷ xs) q out s =
    (s.0, ground arith, s.2, Seg-set_prev l k v x xs q out.1 s.3)

pub last_or-Avoids : (a p : ℕ) (xs : List ℕ) → Avoids a (p ∷ xs) → last_or p xs ≢ a
last_or-Avoids a p [] h = h.0
last_or-Avoids a p (x ∷ xs) h = last_or-Avoids a x xs h.1

-- The link out of the last element decides where the segment ends.
pub Seg-set_last :
    (l : Links) (p : ℕ) (xs : List ℕ) (q q' : ℕ)
    → Distinct xs
    → Seg l p xs q
    → Seg (set_next l (last_or p xs) q') p xs q'
unfolding set_next
Seg-set_last l p [] q q' d s = tt
Seg-set_last l p (x ∷ []) q q' d s = (s.0, s.1, ground arith, tt)
Seg-set_last l p (x ∷ y ∷ xs) q q' d s =
    (s.0, s.1, ground (arith, last_or-Avoids x y xs d.0), Seg-set_last l x (y ∷ xs) q q' d.1 s.3)

-- The link back from the first element decides what stands before the segment.
pub Seg-set_first :
    (l : Links) (p p' : ℕ) (xs : List ℕ) (q : ℕ)
    → Distinct xs
    → Seg l p xs q
    → Seg (set_prev l (head_or xs q) p') p' xs q
unfolding set_prev
Seg-set_first l p p' [] q d s = tt
Seg-set_first l p p' (x ∷ xs) q d s = (s.0, ground arith, s.2, Seg-set_prev l x p' x xs q d.0 s.3)

pub Seg-append :
    (l : Links) (p : ℕ) (xs ys : List ℕ) (q : ℕ)
    → Seg l p xs (head_or ys q)
    → Seg l (last_or p xs) ys q
    → Seg l p (xs ++ ys) q
Seg-append l p [] ys q s t = t
Seg-append l p (x ∷ []) ys q s t = (s.0, s.1, s.2, t)
Seg-append l p (x ∷ y ∷ xs) ys q s t = (s.0, s.1, s.2, Seg-append l x (y ∷ xs) ys q s.3 t)

pub Seg-left :
    (l : Links) (p : ℕ) (xs ys : List ℕ) (q : ℕ) → Seg l p (xs ++ ys) q → Seg l p xs (head_or ys q)
Seg-left l p [] ys q s = tt
Seg-left l p (x ∷ []) ys q s = (s.0, s.1, s.2, tt)
Seg-left l p (x ∷ y ∷ xs) ys q s = (s.0, s.1, s.2, Seg-left l x (y ∷ xs) ys q s.3)

pub Seg-right :
    (l : Links) (p : ℕ) (xs ys : List ℕ) (q : ℕ) → Seg l p (xs ++ ys) q → Seg l (last_or p xs) ys q
Seg-right l p [] ys q s = s
Seg-right l p (x ∷ xs) ys q s = Seg-right l x xs ys q s.3

-- The last element of a list in use is not NULL.
pub last_or-ne-null :
    (l : Links) (p x : ℕ) (xs : List ℕ) (q : ℕ) → Seg l p (x ∷ xs) q → last_or p (x ∷ xs) ≢ null
last_or-ne-null l p x [] q s = s.0
last_or-ne-null l p x (y ∷ xs) q s = last_or-ne-null l x y xs q s.3

pub last_or-append_one : (p : ℕ) (xs : List ℕ) (x : ℕ) → last_or p (xs ++ x ∷ []) ≡ x
last_or-append_one p [] x = refl
last_or-append_one p (y ∷ xs) x = last_or-append_one y xs x

pub last_or-append_cons :
    (p : ℕ) (xs : List ℕ) (x : ℕ) (ys : List ℕ) → last_or p (xs ++ x ∷ ys) ≡ last_or x ys
last_or-append_cons p [] x ys = refl
last_or-append_cons p (y ∷ xs) x ys = last_or-append_cons y xs x ys

head_or-append_cons :
    (xs : List ℕ) (x : ℕ) (ys : List ℕ) (q r : ℕ) → head_or (xs ++ x ∷ ys) q ≡ head_or xs x
head_or-append_cons [] x ys q r = refl
head_or-append_cons (y ∷ xs) x ys q r = refl

-- Only the links of `xs` differ.
abbrev pub SameOutside : List ℕ → Links → Links → Type 0
SameOutside xs l l' = (a : ℕ) → Avoids a xs → (l'.next a ≡ l.next a) × (l'.prev a ≡ l.prev a)

-- The two lists share no element.
abbrev pub Disjoint : List ℕ → List ℕ → Type 0
Disjoint ys xs = All (λ a. Avoids a xs) ys

Seg-frame :
    (l l' : Links) (xs : List ℕ) (p : ℕ) (ys : List ℕ) (q : ℕ)
    → SameOutside xs l l'
    → Disjoint ys xs
    → Seg l p ys q
    → Seg l' p ys q
Seg-frame l l' xs p [] q same apart s = tt
Seg-frame l l' xs p (y ∷ ys) q same apart s = (
  s.0,
  (same y apart.0).1 ∙ s.1,
  (same y apart.0).0 ∙ s.2,
  Seg-frame l l' xs y ys q same apart.1 s.3,
)

-- A list that shares no element with the links written is left as it was.
pub IsList-frame :
    (h : Head) (l l' : Links) (xs ys : List ℕ)
    → SameOutside xs l l'
    → Disjoint ys xs
    → IsList h l ys
    → IsList h l' ys
IsList-frame h l l' xs ys same apart v = record {
  first_is = v.first_is;
  last_is = v.last_is;
  size_is = v.size_is;
  seg = Seg-frame l l' xs null ys null same apart v.seg;
  distinct = v.distinct;
}

-- The result of an operation is the list `ys`, and only the links of `touched` were written.
abbrev pub Yields : List ℕ → Links → List ℕ → Head × Links → Type 0
Yields touched l ys r = IsList r.0 r.1 ys × SameOutside touched l r.1

pub head_or-outside :
    (a : ℕ) (ys : List ℕ) → Avoids a ys → head_or ys null ≢ null → head_or ys null ≢ a
head_or-outside a [] out ne = absurd (ne refl)
head_or-outside a (y ∷ ys) out ne = out.0

pub last_or-outside :
    (a : ℕ) (xs : List ℕ) → Avoids a xs → last_or null xs ≢ null → last_or null xs ≢ a
last_or-outside a [] out ne = absurd (ne refl)
last_or-outside a (x ∷ xs) out ne = last_or-Avoids a x xs out

pub last_or-apart : (a : ℕ) (xs ys : List ℕ) → Distinct (a ∷ xs ++ ys) → Avoids (last_or a xs) ys
last_or-apart a [] ys d = d.0
last_or-apart a (b ∷ xs) ys d = last_or-apart b xs ys d.1

-- What the write to the end of the first part leaves: that part now ends at `q`.
pub relink_front :
    (l : Links) (xs : List ℕ) (x q : ℕ) (ys : List ℕ)
    → Seg l null xs x
    → Seg l (last_or null xs) ys null
    → Distinct (xs ++ ys)
    → let l' = if last_or null xs == null then l else set_next l (last_or null xs) q in
      Seg l' null xs q × Seg l' (last_or null xs) ys null
relink_front l [] x q ys s t d = (tt, t)
relink_front l (a ∷ xs) x q ys s t d =
    unless_null (λ m. Seg m null (a ∷ xs) q × Seg m (last_or a xs) ys null) (last_or a xs) l
      (set_next l (last_or a xs) q) (last_or-ne-null l null a xs x s)
      (
        Seg-set_last l null (a ∷ xs) x q (Distinct-left (a ∷ xs) ys d) s,
        Seg-set_next l (last_or a xs) q (last_or a xs) ys null (last_or-apart a xs ys d) t,
      )
