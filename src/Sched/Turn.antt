-- ===== src/Sched/Turn.antt =====
-- The order in which the scheduler runs the environments of the ready queue.
use mathlib.Core.List.{append-nil, append_assoc}
use mathlib.Core.Path.{subst}
use os_memory_management.Base.{
  ℕ, zero, suc, ◌≡◌, ◌≢◌, refl, sym, ap, ◌∙◌, true, Option, some, List, [], ◌∷◌, ◌++◌, arith, drop,
  length, map, All-append, All-left, All-right, Avoids,
}
use os_memory_management.Queue.{null, Links}
use os_memory_management.Queue.Seg.{IsList, Seg, null-false, head_or}
use os_memory_management.Queue.Insert.{insert_tail_lem}
use os_memory_management.Queue.Before.{insert_before_lem}
use os_memory_management.Sched.{Sched, sched_next_circular, sched_insert_ready, fos_scheduler}

-- The environments `ts` are ready, and run in this order: the ready queue from sched_next on, and
-- then its front.
pub data InTurn (s : Sched) (ts : List ℕ) : Type 0 where
  idle : IsList s.ready s.links [] → s.next ≡ null → ts ≡ [] → InTurn s ts
  turn :
      (xs ys : List ℕ) (e : ℕ)
      → IsList s.ready s.links (xs ++ e ∷ ys)
      → s.next ≡ e
      → ts ≡ e ∷ ys ++ xs
      → InTurn s ts

-- The links of an element in the middle of a list.
pub Seg-at :
    (l : Links) (p : ℕ) (xs : List ℕ) (e : ℕ) (ys : List ℕ)
    → Seg l p (xs ++ e ∷ ys) null
    → (e ≢ null) × (l.next e ≡ head_or ys null)
Seg-at l p [] e ys s = (s.0, s.2)
Seg-at l p (x ∷ xs) e ys s = Seg-at l x xs e ys s.3

Avoids-swap : (k : ℕ) (xs ys : List ℕ) → Avoids k (xs ++ ys) → Avoids k (ys ++ xs)
Avoids-swap k xs ys h =
    All-append (λ a. a ≢ k) ys xs (All-right (λ a. a ≢ k) xs ys h) (All-left (λ a. a ≢ k) xs ys h)

-- sched_insert_ready of an environment that is not NULL and not ready puts it at the end of the
-- order, behind all that are ready.
pub sched_insert_ready-InTurn :
    (env : ℕ) (s : Sched) (ts : List ℕ)
    → InTurn s ts
    → env ≢ null
    → Avoids env ts
    → InTurn (sched_insert_ready env s) (ts ++ env ∷ [])
unfolding sched_insert_ready
sched_insert_ready-InTurn env s ts (idle v e q) nn out =
    rw (null-false env nn, e, q)
      (turn [] [] env (insert_tail_lem env s.ready s.links [] v nn tt).0 refl refl)
sched_insert_ready-InTurn env s ts (turn xs ys n v e q) nn out =
    let out' = Avoids-swap env (n ∷ ys) xs (subst (Avoids env) q out) in
    let w = insert_before_lem n env s.ready s.links xs ys v nn out' in
    rw (null-false env nn, e, null-false n (Seg-at s.links null xs n ys v.seg).0)
      (turn (xs ++ env ∷ []) ys n
        (subst (IsList _ _) (sym (append_assoc xs (env ∷ []) (n ∷ ys))) w.0) refl
        (ap (λ l. l ++ env ∷ []) q ∙ ap (λ l. n ∷ l) (append_assoc ys xs (env ∷ []))))

pub cons-ne-nil : (x : ℕ) (xs : List ℕ) → ¬ (x ∷ xs ≡ [])
cons-ne-nil x xs q = absurd (omega (arith, ap length q))

-- The links of an element in the middle of a list, and of the one after it.
pub Seg-next :
    (l : Links) (p : ℕ) (xs : List ℕ) (e y : ℕ) (ys : List ℕ)
    → Seg l p (xs ++ e ∷ y ∷ ys) null
    → y ≢ null
Seg-next l p [] e y ys s = s.3.0
Seg-next l p (x ∷ xs) e y ys s = Seg-next l x xs e y ys s.3

-- The state after the scheduler has picked `e`, with `y` next.
abbrev picked : ℕ → Sched → Sched
picked y s = record s { next = y; started = true }

fos_scheduler-next :
    (s : Sched) (e y : ℕ)
    → s.next ≡ e
    → e ≢ null
    → s.links.next e ≡ y
    → y ≢ null
    → fos_scheduler s ≡ (some e, picked y s)
unfolding fos_scheduler sched_next_circular
fos_scheduler-next s e y q nn next ny = rw (q, null-false e nn, next, null-false y ny) refl

fos_scheduler-first :
    (s : Sched) (e y : ℕ)
    → s.next ≡ e
    → e ≢ null
    → s.links.next e ≡ null
    → s.ready.first ≡ y
    → fos_scheduler s ≡ (some e, picked y s)
unfolding fos_scheduler sched_next_circular
fos_scheduler-first s e y q nn next first = rw (q, null-false e nn, next, first) refl

-- A call picks `e`, and the order after it is `ts`.
abbrev pub Picks : ℕ → List ℕ → Option ℕ × Sched → Type 0
Picks e ts r = (r.0 ≡ some e) × InTurn r.1 ts

fos_scheduler-turn :
    (s : Sched) (xs ys : List ℕ) (e : ℕ)
    → IsList s.ready s.links (xs ++ e ∷ ys)
    → s.next ≡ e
    → Picks e ((ys ++ xs) ++ e ∷ []) (fos_scheduler s)
fos_scheduler-turn s [] [] e v q =
    let here = Seg-at s.links null [] e [] v.seg in
    rw (fos_scheduler-first s e e q here.0 here.1 v.first_is) (refl, turn [] [] e v refl refl)
fos_scheduler-turn s (x ∷ xs) [] e v q =
    let here = Seg-at s.links null (x ∷ xs) e [] v.seg in
    rw (fos_scheduler-first s e x q here.0 here.1 v.first_is)
      (refl, turn [] (xs ++ e ∷ []) x v refl (sym (append-nil _)))
fos_scheduler-turn s xs (y ∷ ys) e v q =
    let here = Seg-at s.links null xs e (y ∷ ys) v.seg in
    rw (fos_scheduler-next s e y q here.0 here.1 (Seg-next s.links null xs e y ys v.seg)) (
      refl,
      turn (xs ++ e ∷ []) ys y (subst (IsList _ _) (sym (append_assoc xs (e ∷ []) (y ∷ ys))) v) refl
          (ap (λ l. y ∷ l) (append_assoc ys xs (e ∷ []))),
    )

-- A call of fos_scheduler picks the first environment of the order, which goes to its end.
pub fos_scheduler-InTurn :
    (s : Sched) (e : ℕ) (ts : List ℕ) → InTurn s (e ∷ ts) → Picks e (ts ++ e ∷ []) (fos_scheduler s)
fos_scheduler-InTurn s e ts (idle v n q) = absurd (cons-ne-nil e ts q)
fos_scheduler-InTurn s e ts (turn xs ys n v m q) =
    let same : e ≡ n = ap (λ l. head_or l null) q in
    let rest : ts ≡ ys ++ xs = ap (drop 1) q in rw (same, rest) (fos_scheduler-turn s xs ys n v m)

-- What `k` calls of the scheduler pick, one after the other.
abbrev pub picks : ℕ → Sched → List (Option ℕ) × Sched
picks zero s = ([], s)
picks (suc k) s = let (r, s1) = fos_scheduler s in let (rs, s2) = picks k s1 in (r ∷ rs, s2)

-- Round robin: as many calls as there are environments in the first part of the order pick
-- these, each once and in this order, and put them behind the others. So a whole round picks every
-- ready environment once and leaves the order as it was.
pub fos_scheduler-round :
    (us vs : List ℕ) (s : Sched)
    → InTurn s (us ++ vs)
    → ((picks (length us) s).0 ≡ map some us) × InTurn (picks (length us) s).1 (vs ++ us)
fos_scheduler-round [] vs s v = (refl, subst (InTurn s) (sym (append-nil vs)) v)
fos_scheduler-round (u ∷ us) vs s v =
    let (e, w) = fos_scheduler-InTurn s u (us ++ vs) v in
    let w' = subst (InTurn (fos_scheduler s).1) (append_assoc us vs (u ∷ [])) w in
    let (e', w2) = fos_scheduler-round us (vs ++ u ∷ []) (fos_scheduler s).1 w' in
    (
      ap (λ r. r ∷ (picks (length us) (fos_scheduler s).1).0) e ∙ ap (λ l. some u ∷ l) e',
      subst (InTurn _) (append_assoc vs (u ∷ []) us) w2,
    )
