-- ===== src/Sched/Leave.antt =====
-- An environment leaves the ready queue.
use mathlib.Core.List.{append-nil, append_assoc}
use mathlib.Core.Path.{subst}
use os_memory_management.Base.{
  ℕ, ◌≡◌, ◌≢◌, refl, sym, ap, ◌∙◌, true, false, ◌==◌, List, [], ◌∷◌, ◌++◌, arith, drop, length,
  length-append, All-right, Distinct-apart, update,
}
use os_memory_management.Queue.{null, remove}
use os_memory_management.Queue.Seg.{IsList, null-false, head_or}
use os_memory_management.Queue.Remove.{remove_lem}
use os_memory_management.Sched.{Sched, sched_next_circular, sched_remove_ready, env_unknown}
use os_memory_management.Sched.Turn.{InTurn, Seg-at, Seg-next}

eq-false : (x y : ℕ) → x ≢ y → (x == y) ≡ false
eq-false x y ne = ground arith

eq_self : (x : ℕ) → (x == x) ≡ true
eq_self x = ground arith

-- The state after `x` has left, with `y` next.
abbrev left : ℕ → ℕ → Sched → Sched
left x y s = record s {
  ready = (remove x s.ready s.links).0;
  links = (remove x s.ready s.links).1;
  next = y;
  status = update s.status x env_unknown;
}

remove_ready-other :
    (s : Sched) (x : ℕ) → x ≢ null → x ≢ s.next → sched_remove_ready x s ≡ left x s.next s
unfolding sched_remove_ready
remove_ready-other s x nn ne = rw (null-false x nn, eq-false x s.next ne) refl

remove_ready-next :
    (s : Sched) (x y : ℕ)
    → x ≢ null
    → s.next ≡ x
    → s.links.next x ≡ y
    → y ≢ null
    → y ≢ x
    → sched_remove_ready x s ≡ left x y s
unfolding sched_remove_ready sched_next_circular
remove_ready-next s x y nn q next ny ne =
    rw (q, null-false x nn, next, null-false y ny, eq-false y x ne, eq_self x) refl

remove_ready-first :
    (s : Sched) (x y : ℕ)
    → x ≢ null
    → s.next ≡ x
    → s.links.next x ≡ null
    → s.ready.first ≡ y
    → y ≢ x
    → sched_remove_ready x s ≡ left x y s
unfolding sched_remove_ready sched_next_circular
remove_ready-first s x y nn q next first ne =
    rw (q, null-false x nn, next, first, eq-false y x ne, eq_self x) refl

remove_ready-last :
    (s : Sched) (x : ℕ)
    → x ≢ null
    → s.next ≡ x
    → s.links.next x ≡ null
    → s.ready.first ≡ x
    → sched_remove_ready x s ≡ left x null s
unfolding sched_remove_ready sched_next_circular
remove_ready-last s x nn q next first = rw (q, null-false x nn, next, first, eq_self x) refl

-- The environment whose turn it is leaves.
leave-head :
    (s : Sched) (xs ys : List ℕ) (x : ℕ)
    → IsList s.ready s.links (xs ++ x ∷ ys)
    → s.next ≡ x
    → InTurn (sched_remove_ready x s) (ys ++ xs)
leave-head s [] [] x v q =
    let here = Seg-at s.links null [] x [] v.seg in
    rw (remove_ready-last s x here.0 q here.1 v.first_is)
      (InTurn.idle (remove_lem x s.ready s.links [] [] v).0 refl refl)
leave-head s (z ∷ zs) [] x v q =
    let here = Seg-at s.links null (z ∷ zs) x [] v.seg in
    let w = (remove_lem x s.ready s.links (z ∷ zs) [] v).0 in
    rw
      (remove_ready-first s x z here.0 q here.1 v.first_is
        (Distinct-apart x (z ∷ zs) [] v.distinct).1.0)
      (InTurn.turn [] zs z (subst (IsList _ _) (append-nil (z ∷ zs)) w) refl
        (sym (append-nil (z ∷ zs))))
leave-head s xs (y ∷ ys) x v q =
    let here = Seg-at s.links null xs x (y ∷ ys) v.seg in
    let w = (remove_lem x s.ready s.links xs (y ∷ ys) v).0 in
    rw
      (remove_ready-next s x y here.0 q here.1 (Seg-next s.links null xs x y ys v.seg)
        (Distinct-apart x xs (y ∷ ys) v.distinct).0.0)
      (InTurn.turn xs ys y w refl refl)

-- Another environment leaves, which the ready queue has behind or in front of the one whose turn it is.
leave-behind :
    (s : Sched) (xs bs cs : List ℕ) (n x : ℕ)
    → IsList s.ready s.links (xs ++ n ∷ (bs ++ x ∷ cs))
    → s.next ≡ n
    → InTurn (sched_remove_ready x s) (n ∷ (bs ++ cs) ++ xs)
leave-behind s xs bs cs n x v q =
    let v' = subst (IsList s.ready s.links) (sym (append_assoc xs (n ∷ bs) (x ∷ cs))) v in
    let here = Seg-at s.links null (xs ++ n ∷ bs) x cs v'.seg in
    let w = (remove_lem x s.ready s.links (xs ++ n ∷ bs) cs v').0 in
    let out = (Distinct-apart n xs (bs ++ x ∷ cs) v.distinct).0 in
    let ne = (All-right (λ a. a ≢ n) bs (x ∷ cs) out).0 in
    rw (remove_ready-other s x here.0 (λ e. ne (e ∙ q)))
      (InTurn.turn xs (bs ++ cs) n (subst (IsList _ _) (append_assoc xs (n ∷ bs) cs) w) q refl)

leave-front :
    (s : Sched) (bs cs ys : List ℕ) (n x : ℕ)
    → IsList s.ready s.links ((bs ++ x ∷ cs) ++ n ∷ ys)
    → s.next ≡ n
    → InTurn (sched_remove_ready x s) (n ∷ ys ++ (bs ++ cs))
leave-front s bs cs ys n x v q =
    let v' = subst (IsList s.ready s.links) (append_assoc bs (x ∷ cs) (n ∷ ys)) v in
    let here = Seg-at s.links null bs x (cs ++ n ∷ ys) v'.seg in
    let w = (remove_lem x s.ready s.links bs (cs ++ n ∷ ys) v').0 in
    let out = (Distinct-apart x bs (cs ++ n ∷ ys) v'.distinct).0 in
    let ne = (All-right (λ a. a ≢ x) cs (n ∷ ys) out).0 in
    rw (remove_ready-other s x here.0 (λ e. ne (sym (e ∙ q)))) (
      InTurn.turn (bs ++ cs) ys n (subst (IsList _ _) (sym (append_assoc bs cs (n ∷ ys))) w) q refl)

-- An item of two lists in a row is in the first or in the second one.
pub data Splits (us : List ℕ) (x : ℕ) (vs ys xs : List ℕ) : Type 0 where
  in_first : (cs : List ℕ) → ys ≡ us ++ x ∷ cs → vs ≡ cs ++ xs → Splits us x vs ys xs
  in_second : (bs : List ℕ) → xs ≡ bs ++ x ∷ vs → us ≡ ys ++ bs → Splits us x vs ys xs

pub splits :
    (us : List ℕ) (x : ℕ) (vs ys xs : List ℕ) → us ++ x ∷ vs ≡ ys ++ xs → Splits us x vs ys xs
splits us x vs [] xs q = in_second us (sym q) refl
splits [] x vs (y ∷ ys) xs q =
    in_first ys (ap (λ l. l ∷ ys) (sym (ap (λ l. head_or l null) q))) (ap (drop 1) q)
splits (u ∷ us) x vs (y ∷ ys) xs q =
    let e : u ≡ y = ap (λ l. head_or l null) q in
    elim (splits us x vs ys xs (ap (drop 1) q)) [
      | in_first cs a b ↦ in_first cs (rw (e, a) refl) b
      | in_second bs a b ↦ in_second bs a (rw (e, b) refl)
    ]

-- sched_remove_ready takes an environment out of the order, wherever it stands there, and
-- leaves the order of the others.
pub sched_remove_ready-InTurn :
    (s : Sched) (us vs : List ℕ) (x : ℕ)
    → InTurn s (us ++ x ∷ vs)
    → InTurn (sched_remove_ready x s) (us ++ vs)
sched_remove_ready-InTurn s us vs x (InTurn.idle v e q) =
    absurd (omega (arith, ap length q, length-append us (x ∷ vs)))
sched_remove_ready-InTurn s [] vs x (InTurn.turn xs ys n v e q) =
    let same : x ≡ n = ap (λ l. head_or l null) q in
    let rest : vs ≡ ys ++ xs = ap (drop 1) q in rw (same, rest) (leave-head s xs ys n v e)
sched_remove_ready-InTurn s (u ∷ us) vs x (InTurn.turn xs ys n v e q) =
    let same : u ≡ n = ap (λ l. head_or l null) q in
    elim (splits us x vs ys xs (ap (drop 1) q)) [
      | in_first cs a b ↦
          rw (same, b)
            (subst (λ l. InTurn (sched_remove_ready x s) (n ∷ l)) (append_assoc us cs xs)
              (leave-behind s xs us cs n x (subst (λ l. IsList s.ready s.links (xs ++ n ∷ l)) a v)
                e))
      | in_second bs a b ↦
          rw (same, b)
            (subst (λ l. InTurn (sched_remove_ready x s) (n ∷ l)) (sym (append_assoc ys bs vs))
              (leave-front s bs vs ys n x (subst (λ l. IsList s.ready s.links (l ++ n ∷ ys)) a v)
                e))
    ]
