-- ===== src/Queue/Insert.antt =====
-- The insertions of inc/queue.h, as operations on the list that a head stands for.
use mathlib.Core.List.{append-nil}
use os_memory_management.Base.{
  ℕ, ◌≡◌, refl, sym, ◌≢◌, List, [], ◌∷◌, ◌++◌, arith, length-append, All-left, All-right, Avoids,
  Distinct-insert,
}
use os_memory_management.Queue.{
  null, Head, Links, set_next, set_prev, incr, insert_head, insert_tail,
}
use os_memory_management.Queue.Seg.{
  last_or, Seg, IsList, Yields, last_or-Avoids, Seg-set_next, Seg-set_prev, Seg-set_last,
  Seg-set_first, Seg-append, last_or-ne-null, last_or-append_one,
}

insert_head-nil :
    (x : ℕ) (h : Head) (l : Links)
    → h.first ≡ null
    → insert_head x h l
      ≡ (record { first = x; last = x; size = incr h.size }, set_prev (set_next l x h.first) x null)
unfolding insert_head
insert_head-nil x h l e = ground arith

insert_head-cons :
    (x : ℕ) (h : Head) (l : Links)
    → h.first ≢ null
    → insert_head x h l ≡ (
      record { first = x; last = h.last; size = incr h.size },
      set_prev (set_prev (set_next l x h.first) h.first x) x null,
    )
unfolding insert_head
insert_head-cons x h l e = ground arith

-- `LIST_INSERT_HEAD` puts a new element in front of the list. Only links of the elements of the
-- new list are written.
pub insert_head_lem :
    (x : ℕ) (h : Head) (l : Links) (xs : List ℕ)
    → IsList h l xs
    → x ≢ null
    → Avoids x xs
    → Yields (x ∷ xs) l (x ∷ xs) (insert_head x h l)
unfolding set_next set_prev
insert_head_lem x h l [] v nn out = rw (insert_head-nil x h l v.first_is) (
  record {
    first_is = refl;
    last_is = refl;
    size_is = omega (arith, v.size_is);
    seg = (nn, ground arith, ground (arith, v.first_is), tt);
    distinct = (tt, tt);
  },
  λ a o. ground (arith, o.0),
)
insert_head_lem x h l (y ∷ ys) v nn out =
    let ne : h.first ≢ null = ground (arith, v.first_is, v.seg.0) in
    rw (insert_head-cons x h l ne, v.first_is)
      (
        record {
          first_is = refl;
          last_is = v.last_is;
          size_is = omega (arith, v.size_is);
          seg = seg;
          distinct = (out, v.distinct);
        },
        λ a o. ground (arith, o.0, o.1.0),
      )
  where
    seg : Seg (set_prev (set_prev (set_next l x y) y x) x null) null (x ∷ y ∷ ys) null
    seg = (
      nn,
      ground arith,
      ground arith,
      Seg-set_prev _ x null x (y ∷ ys) null out (
          Seg-set_first _ null x (y ∷ ys) null v.distinct
            (Seg-set_next l x y null (y ∷ ys) null out v.seg)),
    )

insert_tail-nil :
    (x : ℕ) (h : Head) (l : Links)
    → h.last ≡ null
    → insert_tail x h l
      ≡ (record { first = x; last = x; size = incr h.size }, set_next (set_prev l x h.last) x null)
unfolding insert_tail
insert_tail-nil x h l e = ground arith

insert_tail-cons :
    (x : ℕ) (h : Head) (l : Links)
    → h.last ≢ null
    → insert_tail x h l ≡ (
      record { first = h.first; last = x; size = incr h.size },
      set_next (set_next (set_prev l x h.last) h.last x) x null,
    )
unfolding insert_tail
insert_tail-cons x h l e = ground arith

-- `LIST_INSERT_TAIL` puts a new element at the end of the list. Only links of the elements of the
-- new list are written.
pub insert_tail_lem :
    (x : ℕ) (h : Head) (l : Links) (xs : List ℕ)
    → IsList h l xs
    → x ≢ null
    → Avoids x xs
    → Yields (xs ++ x ∷ []) l (xs ++ x ∷ []) (insert_tail x h l)
unfolding set_next set_prev
insert_tail_lem x h l [] v nn out = rw (insert_tail-nil x h l v.last_is) (
  record {
    first_is = refl;
    last_is = refl;
    size_is = omega (arith, v.size_is);
    seg = (nn, ground (arith, v.last_is), ground arith, tt);
    distinct = (tt, tt);
  },
  λ a o. ground (arith, o.0),
)
insert_tail_lem x h l (y ∷ ys) v nn out =
    let e = last_or-ne-null l null y ys null v.seg in
    let ne : h.last ≢ null = ground (arith, v.last_is, e) in
    rw (insert_tail-cons x h l ne, v.last_is)
      (
        record {
          first_is = v.first_is;
          last_is = sym (last_or-append_one null (y ∷ ys) x);
          size_is = omega (arith, v.size_is, length-append (y ∷ ys) (x ∷ []));
          seg = seg;
          distinct = Distinct-insert x (y ∷ ys) [] (rw append-nil v.distinct) (rw append-nil out);
        },
        λ a o. ground (
          arith,
          (All-right (λ b. b ≢ a) (y ∷ ys) (x ∷ []) o).0,
          last_or-Avoids a y ys (All-left (λ b. b ≢ a) (y ∷ ys) (x ∷ []) o),
        ),
      )
  where
    z : ℕ
    z = last_or y ys

    seg : Seg (set_next (set_next (set_prev l x z) z x) x null) null (y ∷ ys ++ x ∷ []) null
    seg =
        Seg-append _ null (y ∷ ys) (x ∷ []) null
          (Seg-set_next _ x null null (y ∷ ys) x out (
            Seg-set_last _ null (y ∷ ys) null x v.distinct
              (Seg-set_prev l x z null (y ∷ ys) null out v.seg)))
          (nn, ground arith, ground arith, tt)
