-- ===== src/Envs/Queues.antt =====
-- The four lists of the environments and the statuses agree, and how one environment moves between them.
use mathlib.Core.Path.{subst}
use mathlib.Core.List.{append_assoc}
use os_memory_management.Base.{
  ℕ, ◌≡◌, ◌≢◌, refl, sym, ap, ◌∙◌, arith, List, [], ◌∷◌, ◌++◌, All, All-append, All-left, All-right,
  Avoids, length, length-append,
}
use os_memory_management.Queue.{null, remove}
use os_memory_management.Queue.Seg.{IsList, null-false, SameOutside, Disjoint, IsList-frame}
use os_memory_management.Queue.Remove.{remove_lem}
use os_memory_management.Queue.Insert.{insert_tail_lem}
use os_memory_management.Queue.Before.{insert_before_lem}
use os_memory_management.Sched.{
  Sched, sched_insert_ready, sched_remove_ready, env_ready, env_new, env_exit,
}
use os_memory_management.Sched.Turn.{InTurn, Seg-at}
use os_memory_management.Sched.Leave.{in_first, in_second, splits}
use os_memory_management.Envs.{Envs, env_free}
use os_memory_management.Envs.Statuses.{HasStatus, All-swap}

-- The environments `ts` are ready, in the order of their turns, `ns` are new, `xs` have exited and `fs`
-- are free; each has the status of its list.
pub record Queues (s : Envs) (ts ns xs fs : List ℕ) : Type 0 where
  pub turn : InTurn s.sched ts
  pub new : IsList s.sched.new s.sched.links ns
  pub exit : IsList s.sched.exit s.sched.links xs
  pub free : IsList s.free s.sched.links fs
  pub ready_are : HasStatus s.sched.status env_ready ts
  pub new_are : HasStatus s.sched.status env_new ns
  pub exit_are : HasStatus s.sched.status env_exit xs
  pub free_are : HasStatus s.sched.status env_free fs

-- The environment is in none of the lists.
pub record IsLoose (e : ℕ) (ts ns xs fs : List ℕ) : Type 0 where
  pub not_null : e ≢ null
  pub not_ready : Avoids e ts
  pub not_new : Avoids e ns
  pub not_exit : Avoids e xs
  pub not_free : Avoids e fs

-- The order of the turns where other links change.
pub InTurn-frame :
    (s s' : Sched) (us ts : List ℕ)
    → s'.ready ≡ s.ready
    → s'.next ≡ s.next
    → SameOutside us s.links s'.links
    → Disjoint ts us
    → InTurn s ts
    → InTurn s' ts
InTurn-frame s s' us ts r n same apart (InTurn.idle v e q) =
    InTurn.idle
      (subst (λ h. IsList h s'.links []) (sym r)
        (IsList-frame s.ready s.links s'.links us [] same tt v))
      (n ∙ e) q
InTurn-frame s s' us ts r n same apart (InTurn.turn xs ys e v w q) =
    let apart' : Disjoint (xs ++ e ∷ ys) us =
      All-swap (λ a. Avoids a us) (e ∷ ys) xs (subst (λ l. Disjoint l us) q apart) in
    InTurn.turn xs ys e
      (subst (λ h. IsList h s'.links (xs ++ e ∷ ys)) (sym r)
        (IsList-frame s.ready s.links s'.links us (xs ++ e ∷ ys) same apart' v))
      (n ∙ w) q

-- The links that a move into the ready queue, or out of it, writes.
pub insert_ready-outside :
    (env : ℕ) (s : Sched) (ts : List ℕ)
    → InTurn s ts
    → env ≢ null
    → Avoids env ts
    → SameOutside (ts ++ env ∷ []) s.links (sched_insert_ready env s).links
unfolding sched_insert_ready
insert_ready-outside env s ts (InTurn.idle v e q) nn out =
    rw (null-false env nn, e, q) ((insert_tail_lem env s.ready s.links [] v nn tt).1)
insert_ready-outside env s ts (InTurn.turn xs ys n v e q) nn out =
    let out' = All-swap (λ a. a ≢ env) (n ∷ ys) xs (subst (Avoids env) q out) in
    let w = insert_before_lem n env s.ready s.links xs ys v nn out' in
    rw (null-false env nn, e, null-false n (Seg-at s.links null xs n ys v.seg).0)
      (λ a o.
        let P = λ (b : ℕ). b ≢ a in
        let o' = All-left P ts (env ∷ []) o in
        let here = All-right P ts (env ∷ []) o in
        let both = subst (All P) q o' in
        w.1 a (
          All-append P xs (env ∷ n ∷ ys) (All-right P (n ∷ ys) xs both)
            (here.0, All-left P (n ∷ ys) xs both)))

-- The front of the order stands behind the rest of it in the ready queue.
in_queue :
    (us : List ℕ) (e : ℕ) (vs xs ys : List ℕ)
    → us ++ e ∷ vs ≡ ys ++ xs
    → (bs : List ℕ) × (cs : List ℕ) × (xs ++ ys ≡ bs ++ e ∷ cs)
in_queue us e vs xs ys q = elim (splits us e vs ys xs q) [
  | in_first cs a b ↦ (xs ++ us, cs, ap (λ l. xs ++ l) a ∙ sym (append_assoc xs us (e ∷ cs)))
  | in_second bs a b ↦ (bs, vs ++ ys, ap (λ l. l ++ ys) a ∙ append_assoc bs (e ∷ vs) ys)
]

remove_ready-links :
    (e : ℕ) (s : Sched) → e ≢ null → (sched_remove_ready e s).links ≡ (remove e s.ready s.links).1
unfolding sched_remove_ready
remove_ready-links e s nn = rw (null-false e nn) refl

pub remove_ready-outside :
    (s : Sched) (us vs : List ℕ) (e : ℕ)
    → InTurn s (us ++ e ∷ vs)
    → (e ≢ null) × SameOutside (us ++ e ∷ vs) s.links (sched_remove_ready e s).links
remove_ready-outside s us vs e (InTurn.idle v n q) =
    absurd (omega (arith, ap length q, length-append us (e ∷ vs)))
remove_ready-outside s us vs e (InTurn.turn xs ys n v w q) =
    let (bs, cs, split) = in_queue us e vs xs (n ∷ ys) q in
    let v' = subst (IsList s.ready s.links) split v in
    let nn = (Seg-at s.links null bs e cs v'.seg).0 in
    let m = remove_lem e s.ready s.links bs cs v' in
    (
      nn,
      λ a o.
          let P = λ (b : ℕ). b ≢ a in
          let o' = subst (All P) split (All-swap P (n ∷ ys) xs (subst (All P) q o)) in
          rw (remove_ready-links e s nn) (m.1 a o'),
    )
