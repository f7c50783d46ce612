-- ===== src/Queue/Remove.antt =====
-- `LIST_REMOVE` of inc/queue.h, as an operation on the list that a head stands for.
use mathlib.Core.List.{append-nil}
use os_memory_management.Base.{
  ℕ, ◌≡◌, refl, ◌≢◌, List, [], ◌∷◌, ◌++◌, arith, length-append, All-left, All-right, Distinct,
  if◌then◌else◌, ◌==◌, Distinct-right, Distinct-delete, Distinct-apart,
}
use os_memory_management.Queue.{null, Head, Links, set_next, set_prev, decr, remove}
use os_memory_management.Queue.Seg.{
  head_or, last_or, null-false, unless_null, relink_front, Seg, IsList, Yields, Seg-set_next,
  Seg-set_prev, Seg-set_first, Seg-append, Seg-left, Seg-right, last_or-ne-null,
  last_or-append_cons, head_or-outside, last_or-outside,
}

-- `elm` between `p` and `q`, either of which may be NULL.
abbrev unlinked : ℕ → ℕ → ℕ → Links → Links
unlinked elm p q l =
    let l1 = if q == null then l else set_prev l q p in
    let l2 = if p == null then l1 else set_next l1 p q in set_prev (set_next l2 elm null) elm null

remove-unlinked :
    (x p q : ℕ) (h : Head) (l : Links)
    → l.prev x ≡ p
    → l.next x ≡ q
    → remove x h l ≡ (
      record {
        first = if p == null then q else h.first;
        last = if q == null then p else h.last;
        size = decr h.size;
      },
      unlinked x p q l,
    )
unfolding remove
remove-unlinked x p q h l ep eq = ground arith

-- What the write to the element behind `x` leaves: both parts, the second now behind `p`.
relink_back :
    (l : Links) (p : ℕ) (xs : List ℕ) (x : ℕ) (ys : List ℕ)
    → Seg l null xs x
    → Seg l x ys null
    → Distinct (xs ++ ys)
    → let l' = if head_or ys null == null then l else set_prev l (head_or ys null) p in
      Seg l' null xs x × Seg l' p ys null
relink_back l p xs x [] s t d = (s, tt)
relink_back l p xs x (y ∷ ys) s t d =
    unless_null (λ m. Seg m null xs x × Seg m p (y ∷ ys) null) y l (set_prev l y p) t.0
      (
        Seg-set_prev l y p null xs x (Distinct-apart y xs ys d).1 s,
        Seg-set_first l x p (y ∷ ys) null (Distinct-right xs (y ∷ ys) d) t,
      )

unlinked-same :
    (l : Links) (x p q a : ℕ)
    → x ≢ a
    → (p ≢ null → p ≢ a)
    → (q ≢ null → q ≢ a)
    → ((unlinked x p q l).next a ≡ l.next a) × ((unlinked x p q l).prev a ≡ l.prev a)
unfolding set_next set_prev
unlinked-same l x p q a ne hp hq = ground arith

first_rest :
    (l : Links) (x : ℕ) (xs ys : List ℕ) (q : ℕ)
    → Seg l null xs q
    → (if last_or null xs == null then head_or ys null else head_or (xs ++ x ∷ ys) null)
      ≡ head_or (xs ++ ys) null
first_rest l x [] ys q s = refl
first_rest l x (a ∷ xs) ys q s = rw (null-false (last_or a xs) (last_or-ne-null l null a xs q s))

last_rest :
    (l : Links) (x p : ℕ) (xs ys : List ℕ)
    → Seg l x ys null
    → (if head_or ys null == null then last_or p xs else last_or p (xs ++ x ∷ ys))
      ≡ last_or p (xs ++ ys)
last_rest l x p xs [] s = rw append-nil
last_rest l x p xs (y ∷ ys) s =
    rw (null-false y s.0, last_or-append_cons p xs x (y ∷ ys), last_or-append_cons p xs y ys)

-- `LIST_REMOVE` takes an element out of the list that holds it, wherever it stands. Only links of
-- that list's elements are written.
pub remove_lem :
    (x : ℕ) (h : Head) (l : Links) (xs ys : List ℕ)
    → IsList h l (xs ++ x ∷ ys)
    → Yields (xs ++ x ∷ ys) l (xs ++ ys) (remove x h l)
remove_lem x h l xs ys v = rw (remove-unlinked x p q h l here.1 here.2) (
  record {
    first_is = rw v.first_is (first_rest l x xs ys x front);
    last_is = rw v.last_is (last_rest l x null xs ys here.3);
    size_is = omega (arith, v.size_is, length-append xs (x ∷ ys), length-append xs ys);
    seg = seg;
    distinct = (Distinct-delete x xs ys v.distinct).0;
  },
  λ a o.
      unlinked-same l x p q a (All-right (λ b. b ≢ a) xs (x ∷ ys) o).0
        (last_or-outside a xs (All-left (λ b. b ≢ a) xs (x ∷ ys) o))
        (head_or-outside a ys (All-right (λ b. b ≢ a) xs (x ∷ ys) o).1),
)
  where
    p : ℕ
    p = last_or null xs

    q : ℕ
    q = head_or ys null

    front : Seg l null xs x
    front = Seg-left l null xs (x ∷ ys) null v.seg

    here : Seg l p (x ∷ ys) null
    here = Seg-right l null xs (x ∷ ys) null v.seg

    seg : Seg (unlinked x p q l) null (xs ++ ys) null
    seg =
        let d = Distinct-delete x xs ys v.distinct in
        let out = Distinct-apart x xs ys v.distinct in
        let (s1, t1) = relink_back l p xs x ys front here.3 d.0 in
        let (s2, t2) = relink_front (if q == null then l else set_prev l q p) xs x q ys s1 t1 d.0 in
        Seg-append _ null xs ys null
          (Seg-set_prev _ x null null xs q out.1 (Seg-set_next _ x null null xs q out.1 s2))
          (Seg-set_prev _ x null p ys null out.0 (Seg-set_next _ x null p ys null out.0 t2))
