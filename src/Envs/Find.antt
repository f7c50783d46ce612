-- ===== src/Envs/Find.antt =====
-- The searches for an identifier, and the scheduler's turn.
use mathlib.Core.Path.{subst}
use mathlib.Core.List.{append_assoc}
use os_memory_management.Base.{
  ℕ, zero, suc, ◌<◌, ◌≡◌, ◌≢◌, refl, sym, ap, ◌∙◌, inl, inr, arith, true, false, Bool, Bool-cases,
  ◌==◌, ==_iff, Option, none, some, List, [], ◌∷◌, ◌++◌, All, length, Returns, returns,
  length-append,
}
use os_memory_management.Queue.{null, Links}
use os_memory_management.Queue.Seg.{IsList, Seg, null-false, head_or}
use os_memory_management.Sched.{Sched, fos_scheduler, sched_next_circular}
use os_memory_management.Sched.Turn.{InTurn, fos_scheduler-InTurn, cons-ne-nil}
use os_memory_management.Sched.Leave.{in_first, in_second, splits}
use os_memory_management.Envs.{
  Envs, Control, returned, entered, find_env, run_scheduler, current_of,
}
use os_memory_management.Envs.Statuses.{All-swap}
use os_memory_management.Envs.Queues.{Queues}

-- What a search among `xs` gives: the first environment with the identifier, or the news that there is
-- none.
abbrev pub Found : (ℕ → ℕ) → ℕ → List ℕ → Option ℕ → Type 0
Found id envid xs none = All (λ a. id a ≢ envid) xs
Found id envid xs (some e) =
    (us : List ℕ) × (vs : List ℕ) × (xs ≡ us ++ e ∷ vs)
    × All (λ a. id a ≢ envid) us
    × (id e ≡ envid)

Found-cons :
    (id : ℕ → ℕ) (envid x : ℕ) (xs : List ℕ) (o : Option ℕ)
    → id x ≢ envid
    → Found id envid xs o
    → Found id envid (x ∷ xs) o
Found-cons id envid x xs none ne h = (ne, h)
Found-cons id envid x xs (some e) ne (us, vs, q, f, i) = (x ∷ us, vs, ap (λ l. x ∷ l) q, (ne, f), i)

find_env-Seg :
    (fuel envid : ℕ) (id : ℕ → ℕ) (l : Links) (p : ℕ) (xs : List ℕ)
    → Seg l p xs null
    → length xs < fuel
    → Returns (Found id envid xs) (find_env fuel envid id (head_or xs null) l)
unfolding find_env
find_env-Seg zero envid id l p xs s enough = absurd (omega arith)
find_env-Seg (suc fuel) envid id l p [] s enough = returns none refl tt
find_env-Seg (suc fuel) envid id l p (x ∷ xs) s enough = elim (Bool-cases (id x == envid)) [
  | inl same ↦
      rw (null-false x s.0, same)
        (returns (some x) refl ([], xs, refl, tt, (==_iff (id x) envid).0 same))
  | inr other ↦
      let ne : id x ≢ envid = ground (arith, other) in
      elim (find_env-Seg fuel envid id l x xs s.3 (omega arith)) [
        | returns o e h ↦
            rw (null-false x s.0, other, s.2, e) (returns o refl (Found-cons id envid x xs o ne h))
      ]
]

-- A search in a list with more fuel than elements
pub find_env-Found :
    (fuel envid : ℕ) (id : ℕ → ℕ) (l : Links) (first : ℕ) (xs : List ℕ)
    → first ≡ head_or xs null
    → Seg l null xs null
    → length xs < fuel
    → Returns (Found id envid xs) (find_env fuel envid id first l)
find_env-Found fuel envid id l first xs q s enough =
    rw q (find_env-Seg fuel envid id l null xs s enough)

-- The environment is the first in the ready queue that has the identifier.
abbrev pub FirstReady : (ℕ → ℕ) → ℕ → Sched → ℕ → Type 0
FirstReady id envid s e =
    (bs : List ℕ) × (cs : List ℕ) × IsList s.ready s.links (bs ++ e ∷ cs)
    × All (λ a. id a ≢ envid) bs

-- What a search in the ready queue gives, in the order `ts` of the turns, which may begin anywhere in the
-- queue
abbrev pub FoundReady : (ℕ → ℕ) → ℕ → Sched → List ℕ → Option ℕ → Type 0
FoundReady id envid s ts none = All (λ a. id a ≢ envid) ts
FoundReady id envid s ts (some e) =
    (us : List ℕ) × (vs : List ℕ) × (ts ≡ us ++ e ∷ vs) × FirstReady id envid s e × (id e ≡ envid)

Found-turn :
    (id : ℕ → ℕ) (envid : ℕ) (s : Sched) (xs ys : List ℕ) (o : Option ℕ)
    → IsList s.ready s.links (xs ++ ys)
    → Found id envid (xs ++ ys) o
    → FoundReady id envid s (ys ++ xs) o
Found-turn id envid s xs ys none v h = All-swap (λ a. id a ≢ envid) xs ys h
Found-turn id envid s xs ys (some e) v (us, vs, q, f, i) =
    let first : FirstReady id envid s e = (us, vs, subst (IsList s.ready s.links) q v, f) in
    elim (splits us e vs xs ys (sym q)) [
      | in_first cs a b ↦
          (ys ++ us, cs, ap (λ l. ys ++ l) a ∙ sym (append_assoc ys us (e ∷ cs)), first, i)
      | in_second bs a b ↦
          (bs, vs ++ xs, ap (λ l. l ++ xs) a ∙ append_assoc bs (e ∷ vs) xs, first, i)
    ]

-- The search in the ready queue finds what is in the order of the turns.
pub find_env-turn :
    (fuel envid : ℕ) (id : ℕ → ℕ) (s : Sched) (ts : List ℕ)
    → InTurn s ts
    → length ts < fuel
    → Returns (FoundReady id envid s ts) (find_env fuel envid id s.ready.first s.links)
find_env-turn fuel envid id s ts (InTurn.idle v n q) enough =
    elim (find_env-Found fuel envid id s.links s.ready.first [] v.first_is v.seg
      (omega (arith, enough))) [
        | returns o e h ↦
            returns o e
              (subst (λ l. FoundReady id envid s l o) (sym q) (Found-turn id envid s [] [] o v h))
      ]
find_env-turn fuel envid id s ts (InTurn.turn xs ys n v w q) enough =
    let len : length (xs ++ n ∷ ys) < fuel =
      omega (arith, ap length q, length-append xs (n ∷ ys), length-append (n ∷ ys) xs) in
    elim (find_env-Found fuel envid id s.links s.ready.first (xs ++ n ∷ ys) v.first_is v.seg len) [
      | returns o e h ↦
          returns o e (
            subst (λ l. FoundReady id envid s l o) (sym q)
              (Found-turn id envid s xs (n ∷ ys) o v h))
    ]

-- The first environment goes behind the others.
abbrev pub rotate : List ℕ → List ℕ
rotate [] = []
rotate (t ∷ ts) = ts ++ t ∷ []

abbrev pub first_of_turns : List ℕ → Option ℕ
first_of_turns [] = none
first_of_turns (t ∷ ts) = some t

-- How a call ends, with the order `ts` of the ready environments before that: it returns, or the scheduler
-- runs the first of them, which becomes the current one.
abbrev pub Settled : Bool → List ℕ → List ℕ → List ℕ → List ℕ → Control × Envs → Type 0
Settled true ts ns xs fs r = (r.0 ≡ returned) × Queues r.1 ts ns xs fs
Settled false ts ns xs fs r =
    (r.0 ≡ entered (first_of_turns ts))
    × Queues r.1 (rotate ts) ns xs fs
    × (r.1.cur ≡ head_or ts null)

idle_turn : (s : Sched) → InTurn s [] → (fos_scheduler s).0 ≡ none
unfolding fos_scheduler sched_next_circular
idle_turn s (InTurn.idle v n q) = rw n refl
idle_turn s (InTurn.turn xs ys n v w q) = absurd (cons-ne-nil n (ys ++ xs) (sym q))

idle_InTurn : (s : Sched) → InTurn s [] → InTurn (fos_scheduler s).1 []
unfolding fos_scheduler sched_next_circular
idle_InTurn s (InTurn.idle v n q) = rw n (InTurn.idle v refl refl)
idle_InTurn s (InTurn.turn xs ys n v w q) = absurd (cons-ne-nil n (ys ++ xs) (sym q))

-- The scheduler changes no list and no status.
abbrev Same : Sched → Sched → Type 0
Same q q' = (q'.new ≡ q.new) × (q'.exit ≡ q.exit) × (q'.links ≡ q.links) × (q'.status ≡ q.status)

fos_scheduler-Same : (q : Sched) → Same q (fos_scheduler q).1
unfolding fos_scheduler
fos_scheduler-Same q = elim (Bool-cases (q.next == null)) [
  | inl t ↦ rw t (refl, refl, refl, refl)
  | inr t ↦ rw t (refl, refl, refl, refl)
]

with_turn :
    (s : Envs) (q : Sched) (cur : ℕ) (ts us ns xs fs : List ℕ)
    → Same s.sched q
    → InTurn q us
    → ((st : ℕ → ℕ) → All (λ e. st e ≡ 1) ts → All (λ e. st e ≡ 1) us)
    → Queues s ts ns xs fs
    → Queues (record s { sched = q; cur = cur }) us ns xs fs
with_turn s q cur ts us ns xs fs (n, x, l, st) order ready v = record {
  turn = order;
  new = rw (n, l) v.new;
  exit = rw (x, l) v.exit;
  free = rw l v.free;
  ready_are = rw st (ready s.sched.status v.ready_are);
  new_are = rw st v.new_are;
  exit_are = rw st v.exit_are;
  free_are = rw st v.free_are;
}

pub run_scheduler-Settled :
    (s : Envs) (ts ns xs fs : List ℕ)
    → Queues s ts ns xs fs
    → Settled false ts ns xs fs (run_scheduler s)
unfolding run_scheduler
run_scheduler-Settled s [] ns xs fs v =
    let e = idle_turn s.sched v.turn in
    (
      ap entered e,
      with_turn s (fos_scheduler s.sched).1 _ [] [] ns xs fs (fos_scheduler-Same s.sched)
          (idle_InTurn s.sched v.turn) (λ st h. h) v,
      ap current_of e,
    )
run_scheduler-Settled s (t ∷ ts) ns xs fs v =
    let (e, order) = fos_scheduler-InTurn s.sched t ts v.turn in
    (
      ap entered e,
      with_turn s (fos_scheduler s.sched).1 _ (t ∷ ts) (ts ++ t ∷ []) ns xs fs
          (fos_scheduler-Same s.sched) order (λ st h. All-swap (λ a. st a ≡ 1) (t ∷ []) ts h) v,
      ap current_of e,
    )
