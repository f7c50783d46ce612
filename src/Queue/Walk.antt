-- ===== src/Queue/Walk.antt =====
-- `LIST_FOREACH`, and `LIST_CONCAT` of inc/queue.h.
use native.Mathlib.Nat.{add-zero}
use os_memory_management.Base.{
  ℕ, zero, suc, ◌%◌, ◌^◌, ◌<◌, ◌≡◌, refl, sym, ◌∙◌, ◌≢◌, List, [], ◌∷◌, ◌++◌, arith, length,
  Distinct, Distinct-apart,
}
use os_memory_management.Queue.{null, Head, Links, set_next, set_prev, foreach, concat, list_init}
use os_memory_management.Queue.Seg.{
  head_or, last_or, null-false, last_or-apart, last_or-append_cons, head_or, Seg, IsList,
  Seg-set_next, Seg-set_prev, Seg-set_last, Seg-set_first, Seg-append,
}

foreach-Seg :
    (fuel : ℕ) (l : Links) (p : ℕ) (xs : List ℕ)
    → Seg l p xs null
    → length xs < fuel
    → foreach fuel (head_or xs null) l ≡ xs
unfolding foreach
foreach-Seg zero l p xs s enough = absurd (omega arith)
foreach-Seg (suc fuel) l p [] s enough = refl
foreach-Seg (suc fuel) l p (x ∷ xs) s enough =
    rw (null-false x s.0, s.2, foreach-Seg fuel l x xs s.3 (omega arith))

-- With more fuel than there are elements `LIST_FOREACH` ends, and visits every element of the list
-- once, in order.
foreach_lem :
    (fuel : ℕ) (h : Head) (l : Links) (xs : List ℕ)
    → IsList h l xs
    → length xs < fuel
    → foreach fuel h.first l ≡ xs
foreach_lem fuel h l xs v enough = rw v.first_is (foreach-Seg fuel l null xs v.seg enough)

concat-both :
    (h1 h2 : Head) (l : Links)
    → h1.first ≢ null
    → h2.first ≢ null
    → concat h1 h2 l ≡ (
      record { first = h1.first; last = h2.last; size = h1.size % 2 ^ 32 },
      list_init,
      set_prev (set_next l h1.last h2.first) h2.first h1.last,
    )
unfolding concat list_init
concat-both h1 h2 l n1 n2 = ground (arith, add-zero h1.size)

-- The heads and the links of `xs ++ ys`, but for the size.
pub record IsConcat (xs ys : List ℕ) (r : Head × Head × Links) : Type 0 where
  pub first_is : r.0.first ≡ head_or (xs ++ ys) null
  pub last_is : r.0.last ≡ last_or null (xs ++ ys)
  pub seg : Seg r.2 null (xs ++ ys) null
  pub emptied : IsList r.1 r.2 []
  pub size_is : r.0.size ≡ length xs % 2 ^ 32

-- `LIST_CONCAT` of two lists that are not empty and share no element: the head and the links are
-- those of the concatenation and the second head is emptied. But the size stays that of the first
-- list.
pub concat_lem :
    (h1 h2 : Head) (l : Links) (x : ℕ) (xs : List ℕ) (y : ℕ) (ys : List ℕ)
    → IsList h1 l (x ∷ xs)
    → IsList h2 l (y ∷ ys)
    → Distinct (x ∷ xs ++ y ∷ ys)
    → IsConcat (x ∷ xs) (y ∷ ys) (concat h1 h2 l)
unfolding list_init
concat_lem h1 h2 l x xs y ys v w d =
    rw
      (
        concat-both h1 h2 l (λ e. v.seg.0 (sym v.first_is ∙ e)) (λ e. w.seg.0 (sym w.first_is ∙ e)),
        v.last_is,
        w.first_is,
      )
      (record {
        first_is = v.first_is;
        last_is = w.last_is ∙ sym (last_or-append_cons null (x ∷ xs) y ys);
        seg = seg;
        emptied = record {
          first_is = refl;
          last_is = refl;
          size_is = refl;
          seg = tt;
          distinct = tt;
        };
        size_is = omega (arith, v.size_is);
      })
  where
    seg : Seg (set_prev (set_next l (last_or x xs) y) y (last_or x xs)) null (x ∷ xs ++ y ∷ ys) null
    seg =
        Seg-append _ null (x ∷ xs) (y ∷ ys) null
          (Seg-set_prev _ y (last_or x xs) null (x ∷ xs) y (Distinct-apart y (x ∷ xs) ys d).1
            (Seg-set_last l null (x ∷ xs) null y v.distinct v.seg))
          (Seg-set_first _ null (last_or x xs) (y ∷ ys) null w.distinct (
            Seg-set_next l (last_or x xs) y null (y ∷ ys) null (last_or-apart x xs (y ∷ ys) d)
              w.seg))
