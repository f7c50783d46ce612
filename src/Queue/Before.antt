-- ===== src/Queue/Before.antt =====
-- `LIST_INSERT_BEFORE` of inc/queue.h, as an operation on the list that a head stands for.
use os_memory_management.Base.{
  ℕ, ◌≡◌, refl, sym, ◌≢◌, List, [], ◌∷◌, ◌++◌, arith, length-append, All-left, All-right, Avoids,
  if◌then◌else◌, ◌==◌, Distinct-right, Distinct-insert, Distinct-apart,
}
use os_memory_management.Queue.{null, Head, Links, set_next, set_prev, incr, insert_before}
use os_memory_management.Queue.Seg.{
  head_or, last_or, null-false, relink_front, Seg, IsList, Yields, Seg-set_next, Seg-set_prev,
  Seg-set_first, Seg-append, Seg-left, Seg-right, last_or-ne-null, last_or-outside,
  last_or-append_cons,
}

-- `elm` written in front of `y`, whose predecessor is `p`.
abbrev linked_before : ℕ → ℕ → ℕ → Links → Links
linked_before y x p l =
    let l2 = set_next (set_prev l x p) x y in
    set_prev (if p == null then l2 else set_next l2 p x) y x

insert_before-linked :
    (y x p : ℕ) (h : Head) (l : Links)
    → l.prev y ≡ p
    → x ≢ y
    → insert_before y x h l ≡ (
      record h { first = if p == null then x else h.first; size = incr h.size },
      linked_before y x p l,
    )
unfolding insert_before
insert_before-linked y x p h l e ne = ground arith

linked_before-new :
    (l : Links) (y x p : ℕ)
    → x ≢ y
    → (p ≢ null → p ≢ x)
    → ((linked_before y x p l).prev x ≡ p) × ((linked_before y x p l).next x ≡ y)
unfolding set_next set_prev
linked_before-new l y x p nx np = ground arith

linked_before-same :
    (l : Links) (y x p a : ℕ)
    → x ≢ a
    → y ≢ a
    → (p ≢ null → p ≢ a)
    → ((linked_before y x p l).next a ≡ l.next a) × ((linked_before y x p l).prev a ≡ l.prev a)
unfolding set_next set_prev
linked_before-same l y x p a nx ny np = ground arith

first_insert :
    (l : Links) (x y : ℕ) (xs ys : List ℕ)
    → Seg l null xs y
    → (if last_or null xs == null then x else head_or (xs ++ y ∷ ys) null)
      ≡ head_or (xs ++ x ∷ y ∷ ys) null
first_insert l x y [] ys s = refl
first_insert l x y (a ∷ xs) ys s = rw (null-false (last_or a xs) (last_or-ne-null l null a xs y s))

-- `LIST_INSERT_BEFORE` puts a new element in front of one that is in the list. Only links of the
-- elements of the new list are written.
pub insert_before_lem :
    (y x : ℕ) (h : Head) (l : Links) (xs ys : List ℕ)
    → IsList h l (xs ++ y ∷ ys)
    → x ≢ null
    → Avoids x (xs ++ y ∷ ys)
    → Yields (xs ++ x ∷ y ∷ ys) l (xs ++ x ∷ y ∷ ys) (insert_before y x h l)
insert_before_lem y x h l xs ys v nn out = rw (insert_before-linked y x p h l here.1 ne) (
  record {
    first_is = rw v.first_is (first_insert l x y xs ys front);
    last_is =
        rw (v.last_is, last_or-append_cons null xs y ys, last_or-append_cons null xs x (y ∷ ys));
    size_is = omega (arith, v.size_is, length-append xs (y ∷ ys), length-append xs (x ∷ y ∷ ys));
    seg = seg;
    distinct = Distinct-insert x xs (y ∷ ys) v.distinct out;
  },
  λ a o.
      let rest = All-right (λ b. b ≢ a) xs (x ∷ y ∷ ys) o in
      linked_before-same l y x p a rest.0 rest.1.0
        (last_or-outside a xs (All-left (λ b. b ≢ a) xs (x ∷ y ∷ ys) o)),
)
  where
    p : ℕ
    p = last_or null xs

    front : Seg l null xs y
    front = Seg-left l null xs (y ∷ ys) null v.seg

    here : Seg l p (y ∷ ys) null
    here = Seg-right l null xs (y ∷ ys) null v.seg

    ne : x ≢ y
    ne e = (All-right (λ b. b ≢ x) xs (y ∷ ys) out).0 (sym e)

    l2 : Links
    l2 = set_next (set_prev l x p) x y

    seg : Seg (linked_before y x p l) null (xs ++ x ∷ y ∷ ys) null
    seg =
        let out_xs = All-left (λ b. b ≢ x) xs (y ∷ ys) out in
        let out_ys = All-right (λ b. b ≢ x) xs (y ∷ ys) out in
        let s2 =
          Seg-set_next (set_prev l x p) x y null xs y out_xs
            (Seg-set_prev l x p null xs y out_xs front) in
        let t2 =
          Seg-set_next (set_prev l x p) x y p (y ∷ ys) null out_ys
            (Seg-set_prev l x p p (y ∷ ys) null out_ys here) in
        let (s3, t3) = relink_front l2 xs y x (y ∷ ys) s2 t2 v.distinct in
        let new = linked_before-new l y x p ne (last_or-outside x xs out_xs) in
        Seg-append _ null xs (x ∷ y ∷ ys) null
          (Seg-set_prev _ y x null xs x (Distinct-apart y xs ys v.distinct).1 s3)
          (
            nn,
            new.0,
            new.1,
            Seg-set_first _ p x (y ∷ ys) null (Distinct-right xs (y ∷ ys) v.distinct) t3,
          )
