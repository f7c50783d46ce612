-- ===== src/Envs/KillAll.antt =====
-- sched_kill_all of kern/sched.c.
use mathlib.Core.Path.{subst}
use mathlib.Core.List.{append-nil}
use os_memory_management.Base.{
  ℕ, zero, suc, ◌+◌, ◌<◌, ◌≡◌, ◌≢◌, refl, sym, ap, ◌∙◌, arith, none, List, [], ◌∷◌, ◌++◌, length,
  Returns, returns, ok, true, ◌==◌, length-append,
}
use os_memory_management.Queue.{null, Head}
use os_memory_management.Queue.Seg.{IsList, null-false, head_or}
use os_memory_management.Queue.Remove.{remove_lem}
use os_memory_management.Sched.{Sched, sched_remove_ready, sched_remove_new, sched_remove_exit}
use os_memory_management.Sched.Turn.{InTurn}
use os_memory_management.Envs.{
  Envs, entered, on_sched, free_environment, kill_queue, sched_kill_all,
}
use os_memory_management.Envs.Queues.{Queues}
use os_memory_management.Envs.Moves.{remove_new-Queues, remove_exit-Queues}
use os_memory_management.Envs.Turnover.{remove_ready-Queues, free_environment-Queues}
use os_memory_management.Envs.Counting.{weigh, weigh-append, weigh_split, occurs, spot}
use os_memory_management.Envs.Find.{run_scheduler-Settled}

-- The free environments are those of `ks` and the `fs` there were, whatever an environment weighs.
pub data Gathered (ts ns xs ks fs : List ℕ) (s : Envs) : Type 0 where
  gathered :
      (gs : List ℕ)
      → Queues s ts ns xs gs
      → ((w : ℕ → ℕ) → weigh w gs ≡ weigh w ks + weigh w fs)
      → Gathered ts ns xs ks fs s

Gathered-cons :
    (ts ns xs ks fs ms : List ℕ) (e : ℕ) (s : Envs)
    → ((w : ℕ → ℕ) → weigh w ms ≡ w e + weigh w ks)
    → Gathered ts ns xs ks (e ∷ fs) s
    → Gathered ts ns xs ms fs s
Gathered-cons ts ns xs ks fs ms e s more (gathered gs v len) =
    gathered gs v (λ w. omega (arith, len w, more w))

kill_new :
    (ns : List ℕ) (fuel : ℕ) (s : Envs) (ts xs fs : List ℕ)
    → Queues s ts ns xs fs
    → length ns < fuel
    → Returns (Gathered ts [] xs ns fs) (kill_queue sched_remove_new fuel (head_or ns null) s)
unfolding kill_queue
kill_new ns zero s ts xs fs v enough = absurd (omega arith)
kill_new [] (suc fuel) s ts xs fs v enough = returns s refl (gathered fs v (λ w. omega arith))
kill_new (n ∷ ns) (suc fuel) s ts xs fs v enough =
    let (w, l) = remove_new-Queues n s ts [] ns xs fs v in
    let s1 = free_environment n (on_sched (sched_remove_new n) s) in
    let w1 = free_environment-Queues n (on_sched (sched_remove_new n) s) ts ns xs fs w l in
    elim (kill_new ns fuel s1 ts xs (n ∷ fs) w1 (omega arith)) [
      | returns s2 e h ↦
          rw (null-false n v.new.seg.0, v.new.seg.2, e)
            (returns s2 refl (Gathered-cons ts [] xs ns fs (n ∷ ns) n s2 (λ w. refl) h))
    ]

kill_exited :
    (xs : List ℕ) (fuel : ℕ) (s : Envs) (ts ns fs : List ℕ)
    → Queues s ts ns xs fs
    → length xs < fuel
    → Returns (Gathered ts ns [] xs fs) (kill_queue sched_remove_exit fuel (head_or xs null) s)
unfolding kill_queue
kill_exited xs zero s ts ns fs v enough = absurd (omega arith)
kill_exited [] (suc fuel) s ts ns fs v enough = returns s refl (gathered fs v (λ w. omega arith))
kill_exited (n ∷ xs) (suc fuel) s ts ns fs v enough =
    let (w, l) = remove_exit-Queues n s ts ns [] xs fs v in
    let s1 = free_environment n (on_sched (sched_remove_exit n) s) in
    let w1 = free_environment-Queues n (on_sched (sched_remove_exit n) s) ts ns xs fs w l in
    elim (kill_exited xs fuel s1 ts ns (n ∷ fs) w1 (omega arith)) [
      | returns s2 e h ↦
          rw (null-false n v.exit.seg.0, v.exit.seg.2, e)
            (returns s2 refl (Gathered-cons ts ns [] xs fs (n ∷ xs) n s2 (λ w. refl) h))
    ]

-- The first environment of the ready queue is in the order of the turns, wherever that begins; when it
-- has left, the queue begins with the one after it.
data AtFront (s : Sched) (ts : List ℕ) : Type 0 where
  no_one : ts ≡ [] → s.ready.first ≡ null → AtFront s ts
  front :
      (us vs : List ℕ)
      → ts ≡ us ++ s.ready.first ∷ vs
      → s.ready.first ≢ null
      → (sched_remove_ready s.ready.first s).ready.first ≡ s.links.next s.ready.first
      → AtFront s ts

next_first :
    (s : Sched) (x : ℕ) (xs : List ℕ)
    → IsList s.ready s.links (x ∷ xs)
    → (x ≢ null) × ((sched_remove_ready x s).ready.first ≡ s.links.next x)
unfolding sched_remove_ready
next_first s x xs v =
    let nn = v.seg.0 in
    let w = (remove_lem x s.ready s.links [] xs v).0 in
    (nn, rw (null-false x nn) (w.first_is ∙ sym v.seg.2))

at_front : (s : Sched) (ts : List ℕ) → InTurn s ts → AtFront s ts
at_front s ts (InTurn.idle v e q) = no_one q v.first_is
at_front s ts (InTurn.turn [] ys n v e q) =
    let (nn, next) = next_first s n ys v in
    subst (λ f. AtFront s ts) v.first_is
      (front [] ys (q ∙ ap (λ f. f ∷ ys ++ []) (sym v.first_is) ∙ append-nil _)
        (λ z. nn (sym v.first_is ∙ z))
        (subst (λ f. (sched_remove_ready f s).ready.first ≡ s.links.next f) (sym v.first_is) next))
at_front s ts (InTurn.turn (x ∷ xs) ys n v e q) =
    let (nn, next) = next_first s x (xs ++ n ∷ ys) v in
    front (n ∷ ys) xs (q ∙ ap (λ f. n ∷ ys ++ f ∷ xs) (sym v.first_is))
      (λ z. nn (sym v.first_is ∙ z))
      (subst (λ f. (sched_remove_ready f s).ready.first ≡ s.links.next f) (sym v.first_is) next)

freed-ready : (e : ℕ) (s : Envs) → (free_environment e s).sched.ready ≡ s.sched.ready
unfolding free_environment
freed-ready e s = refl

kill_turns :
    (fuel : ℕ) (s : Envs) (ts ns xs fs : List ℕ)
    → Queues s ts ns xs fs
    → length ts < fuel
    → Returns (Gathered [] ns xs ts fs) (kill_queue sched_remove_ready fuel s.sched.ready.first s)
unfolding kill_queue
kill_turns zero s ts ns xs fs v enough = absurd (omega arith)
kill_turns (suc fuel) s ts ns xs fs v enough = elim (at_front s.sched ts v.turn) [
  | no_one q first ↦
      let test : (s.sched.ready.first == null) ≡ true = ground (arith, first) in
      rw test (
        returns s refl
          (gathered fs (subst (λ l. Queues s l ns xs fs) q v) (λ w. omega (arith, ap (weigh w) q))))
  | front us vs q nn next ↦
      let n = s.sched.ready.first in
      let len : length ts ≡ suc (length (us ++ vs)) =
        omega (arith, ap length q, length-append us (n ∷ vs), length-append us vs) in
      let (w, l) = remove_ready-Queues n s us vs ns xs fs (subst (λ l. Queues s l ns xs fs) q v) in
      let s0 = on_sched (sched_remove_ready n) s in
      let s1 = free_environment n s0 in
      let w1 = free_environment-Queues n s0 (us ++ vs) ns xs fs w l in
      let go = kill_turns fuel s1 (us ++ vs) ns xs (n ∷ fs) w1 (omega (arith, len)) in
      let first : s1.sched.ready.first ≡ s.sched.links.next n =
        ap (λ (h : Head). h.first) (freed-ready n s0) ∙ next in
      elim (subst
        (λ f.
          Returns (Gathered [] ns xs (us ++ vs) (n ∷ fs)) (kill_queue sched_remove_ready fuel f s1))
        first go) [
          | returns s2 e h ↦
              let e' = e in
              rw (null-false n nn, e')
                (returns s2 refl (
                  Gathered-cons [] ns xs (us ++ vs) fs ts n s2 (λ w. weigh_split w us vs ts n q) h))
        ]
]

pub sched_kill_all-Gathered :
    (fuel : ℕ) (s : Envs) (ts ns xs fs : List ℕ)
    → Queues s ts ns xs fs
    → length ts < fuel
    → length ns < fuel
    → length xs < fuel
    → Returns
        (λ r. (r.0 ≡ entered none) × (r.1.cur ≡ null) × Gathered [] [] [] (ts ++ (ns ++ xs)) fs r.1)
        (sched_kill_all fuel s)
unfolding sched_kill_all
sched_kill_all-Gathered fuel s ts ns xs fs v enough enough' enough'' =
    elim (kill_new ns fuel s ts xs fs v enough') [
      | returns s1 e1 (gathered g1 v1 l1) ↦ elim (kill_turns fuel s1 ts [] xs g1 v1 enough) [
        | returns s2 e2 (gathered g2 v2 l2) ↦ elim (kill_exited xs fuel s2 [] [] g2 v2 enough'') [
          | returns s3 e3 (gathered g3 v3 l3) ↦
              let q1 =
                subst (λ f. kill_queue sched_remove_new fuel f s ≡ ok s1) (sym v.new.first_is) e1 in
              let q3 =
                subst (λ f. kill_queue sched_remove_exit fuel f s2 ≡ ok s3) (sym v2.exit.first_is)
                  e3 in
              let (c, w, z) = run_scheduler-Settled s3 [] [] [] g3 v3 in
              rw (q1, e2, q3)
                (returns _ refl (
                  c,
                  z,
                  gathered g3 w (λ w. omega (
                    arith,
                    l1 w,
                    l2 w,
                    l3 w,
                    weigh-append w ts (ns ++ xs),
                    weigh-append w ns xs,
                  )),
                ))
        ]
      ]
    ]

-- The lists are empty but for that of the free environments, `gs`, which has each environment as often as the
-- lists before had it: once for a killed one, and once for one that was free.
pub data Freed (ts ns xs fs : List ℕ) (s : Envs) : Type 0 where
  freed :
      (gs : List ℕ)
      → Queues s [] [] [] gs
      → ((a : ℕ) → occurs a gs ≡ occurs a ts + occurs a ns + occurs a xs + occurs a fs)
      → Freed ts ns xs fs s

-- sched_kill_all ends, with every environment of the three queues in the list of free ones, with the status of
-- a free one, as all are that were free before; no other is there, and the queues are empty. Then the
-- scheduler has no environment to run and opens the command prompt. The lists and the statuses agree before
-- the call, and after it.
pub sched_kill_all-Freed :
    (fuel : ℕ) (s : Envs) (ts ns xs fs : List ℕ)
    → Queues s ts ns xs fs
    → length ts < fuel
    → length ns < fuel
    → length xs < fuel
    → Returns
        (λ r. (r.0 ≡ entered none) × (r.1.cur ≡ null) × Freed ts ns xs fs r.1)
        (sched_kill_all fuel s)
sched_kill_all-Freed fuel s ts ns xs fs v enough enough' enough'' =
    elim (sched_kill_all-Gathered fuel s ts ns xs fs v enough enough' enough'') [
      | returns r e (c, z, gathered gs w all) ↦ returns r e (
        c,
        z,
        freed gs w (λ a. omega (
          arith,
          all (spot a),
          weigh-append (spot a) ts (ns ++ xs),
          weigh-append (spot a) ns xs,
        )),
      )
    ]
