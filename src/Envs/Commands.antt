-- ===== src/Envs/Commands.antt =====
-- The commands of kern/sched.c that start environments and end them.
use mathlib.Core.Path.{subst}
use mathlib.Core.List.{append-nil, append_assoc}
use os_memory_management.Base.{
  ℕ, zero, suc, ◌<◌, ◌≡◌, ◌≢◌, refl, sym, ◌∙◌, inl, inr, arith, true, false, Bool, not, Bool-cases,
  ◌==◌, none, some, List, [], ◌∷◌, ◌++◌, All, length, ok, Returns, returns, if◌then◌else◌,
}
use os_memory_management.Queue.{null}
use os_memory_management.Queue.Seg.{null-false, head_or}
use os_memory_management.Sched.{Sched, sched_insert_ready, sched_remove_new, sched_remove_ready}
use os_memory_management.Sched.Turn.{Seg-at}
use os_memory_management.Envs.{
  Envs, Control, returned, on_sched, run_new, sched_run_all, sched_run_env, exit_ready,
  sched_exit_env, run_scheduler,
}
use os_memory_management.Envs.Queues.{Queues}
use os_memory_management.Envs.Moves.{
  insert_exit-Queues, insert_ready-Queues, insert_ready-rest, remove_new-Queues,
}
use os_memory_management.Envs.Turnover.{remove_ready-Queues}
use os_memory_management.Envs.Find.{
  FirstReady, find_env-Found, find_env-turn, Settled, run_scheduler-Settled,
}

-- A new environment becomes ready.
start-Queues :
    (e : ℕ) (s : Envs) (ts us vs xs fs : List ℕ)
    → Queues s ts (us ++ e ∷ vs) xs fs
    → Queues
        (on_sched (λ q. sched_insert_ready e (sched_remove_new e q)) s)
        (ts ++ e ∷ [])
        (us ++ vs)
        xs
        fs
start-Queues e s ts us vs xs fs v =
    let (w, l) = remove_new-Queues e s ts us vs xs fs v in
    insert_ready-Queues e (on_sched (sched_remove_new e) s) ts (us ++ vs) xs fs w l

start-started :
    (e : ℕ) (q : Sched)
    → e ≢ null
    → (sched_insert_ready e (sched_remove_new e q)).started ≡ q.started
unfolding sched_remove_new
start-started e q nn =
    (insert_ready-rest e (sched_remove_new e q) nn).3 ∙ (rw (null-false e nn) refl)

-- What the loop of sched_run_all leaves
abbrev Started : Envs → List ℕ → List ℕ → List ℕ → Sched → Type 0
Started s ts xs fs q = Queues (record s { sched = q }) ts [] xs fs × (q.started ≡ s.sched.started)

run_new-Queues :
    (ns : List ℕ) (fuel : ℕ) (s : Envs) (ts xs fs : List ℕ)
    → Queues s ts ns xs fs
    → length ns < fuel
    → Returns (Started s (ts ++ ns) xs fs) (run_new fuel (head_or ns null) s.sched)
unfolding run_new
run_new-Queues ns zero s ts xs fs v enough = absurd (omega arith)
run_new-Queues [] (suc fuel) s ts xs fs v enough =
    returns s.sched refl (subst (λ l. Queues s l [] xs fs) (sym (append-nil ts)) v, refl)
run_new-Queues (n ∷ ns) (suc fuel) s ts xs fs v enough =
    let s' = on_sched (λ q. sched_insert_ready n (sched_remove_new n q)) s in
    let w = start-Queues n s ts [] ns xs fs v in
    elim (run_new-Queues ns fuel s' (ts ++ n ∷ []) xs fs w (omega arith)) [
      | returns q e h ↦
          rw (null-false n v.new.seg.0, v.new.seg.2, e)
            (returns q refl (
              subst (λ l. Queues (record s { sched = q }) l [] xs fs) (append_assoc ts (n ∷ []) ns)
                  h.0,
              h.1 ∙ start-started n s.sched v.new.seg.0,
            ))
    ]

-- The call returns where the scheduler has started, and it runs the first environment otherwise.
settle :
    (b : Bool) (s : Envs) (ts ns xs fs : List ℕ)
    → Queues s ts ns xs fs
    → Returns (Settled b ts ns xs fs) (if b then ok (returned, s) else ok (run_scheduler s))
settle true s ts ns xs fs v = returns (returned, s) refl (refl, v)
settle false s ts ns xs fs v =
    returns (run_scheduler s) refl (run_scheduler-Settled s ts ns xs fs v)

-- sched_run_all ends, with all new environments ready, behind those that were ready before and in their
-- order; the call returns where the scheduler has started, and otherwise the scheduler runs the first
-- ready one. The lists and the statuses agree before the call, and they agree after it.
pub sched_run_all-Settled :
    (fuel : ℕ) (s : Envs) (ts ns xs fs : List ℕ)
    → Queues s ts ns xs fs
    → length ns < fuel
    → Returns (Settled s.sched.started (ts ++ ns) [] xs fs) (sched_run_all fuel s)
unfolding sched_run_all
sched_run_all-Settled fuel s ts ns xs fs v enough =
    elim (run_new-Queues ns fuel s ts xs fs v enough) [
      | returns q e h ↦
          let e' = subst (λ f. run_new fuel f s.sched ≡ ok q) (sym v.new.first_is) e in
          rw e' (
            subst
              (λ b. Returns (Settled b (ts ++ ns) [] xs fs) (
                if q.started
                then ok (returned, record s { sched = q })
                else ok (run_scheduler (record s { sched = q }))))
              h.1 (settle q.started (record s { sched = q }) (ts ++ ns) [] xs fs h.0))
    ]

-- What sched_run_env does: the first new environment with the identifier becomes ready, behind the
-- others; without one nothing changes.
pub data RunOne (envid : ℕ) (s : Envs) (ts ns xs fs : List ℕ) (r : Control × Envs) : Type 0 where
  nobody : All (λ a. s.id a ≢ envid) ns → r ≡ (returned, s) → RunOne envid s ts ns xs fs r
  started :
      (us vs : List ℕ) (e : ℕ)
      → ns ≡ us ++ e ∷ vs
      → All (λ a. s.id a ≢ envid) us
      → s.id e ≡ envid
      → Settled s.sched.started (ts ++ e ∷ []) (us ++ vs) xs fs r
      → RunOne envid s ts ns xs fs r

pub sched_run_env-RunOne :
    (fuel envid : ℕ) (s : Envs) (ts ns xs fs : List ℕ)
    → Queues s ts ns xs fs
    → length ns < fuel
    → Returns (RunOne envid s ts ns xs fs) (sched_run_env fuel envid s)
unfolding sched_run_env
sched_run_env-RunOne fuel envid s ts ns xs fs v enough =
    elim (find_env-Found fuel envid s.id s.sched.links s.sched.new.first ns v.new.first_is v.new.seg
      enough) [
        | returns none e h ↦ rw e (returns (returned, s) refl (nobody h refl))
        | returns (some n) e (us, vs, q, f, i) ↦
            let v' = subst (λ l. Queues s ts l xs fs) q v in
            let nn = (Seg-at s.sched.links null us n vs v'.new.seg).0 in
            let s' = on_sched (λ q. sched_insert_ready n (sched_remove_new n q)) s in
            elim (settle s'.sched.started s' (ts ++ n ∷ []) (us ++ vs) xs fs
              (start-Queues n s ts us vs xs fs v')) [
                | returns r e' h ↦
                    rw (e, e')
                      (returns r refl (
                        started us vs n q f i (
                          subst (λ b. Settled b (ts ++ n ∷ []) (us ++ vs) xs fs r)
                            (start-started n s.sched nn) h)))
              ]
      ]

-- What sched_exit_env does, where there is a current environment: the first new environment with the
-- identifier has exited; or else the first ready one, after which the scheduler runs the next where the
-- identifier is the current environment's; or there is no such environment, and nothing changes.
pub data Exited (envid : ℕ) (s : Envs) (ts ns xs fs : List ℕ) (r : Control × Envs) : Type 0 where
  absent :
      All (λ a. s.id a ≢ envid) ns
      → All (λ a. s.id a ≢ envid) ts
      → r ≡ (returned, s)
      → Exited envid s ts ns xs fs r
  new_exits :
      (us vs : List ℕ) (e : ℕ)
      → ns ≡ us ++ e ∷ vs
      → All (λ a. s.id a ≢ envid) us
      → s.id e ≡ envid
      → r.0 ≡ returned
      → Queues r.1 ts (us ++ vs) (xs ++ e ∷ []) fs
      → Exited envid s ts ns xs fs r
  ready_exits :
      (us vs : List ℕ) (e : ℕ)
      → All (λ a. s.id a ≢ envid) ns
      → ts ≡ us ++ e ∷ vs
      → FirstReady s.id envid s.sched e
      → s.id e ≡ envid
      → Settled (not (s.id s.cur == envid)) (us ++ vs) ns (xs ++ e ∷ []) fs r
      → Exited envid s ts ns xs fs r

exit_ready-Exited :
    (fuel envid : ℕ) (s : Envs) (ts ns xs fs : List ℕ)
    → Queues s ts ns xs fs
    → All (λ a. s.id a ≢ envid) ns
    → length ts < fuel
    → s.cur ≢ null
    → Returns (Exited envid s ts ns xs fs) (exit_ready fuel envid s)
unfolding exit_ready
exit_ready-Exited fuel envid s ts ns xs fs v others enough cur =
    elim (find_env-turn fuel envid s.id s.sched ts v.turn enough) [
      | returns none e h ↦ rw e (returns (returned, s) refl (absent others h refl))
      | returns (some n) e (us, vs, q, f, i) ↦
          let (w, l) =
            remove_ready-Queues n s us vs ns xs fs (subst (λ l. Queues s l ns xs fs) q v) in
          let w' =
            insert_exit-Queues n (on_sched (sched_remove_ready n) s) (us ++ vs) ns xs fs w l in
          elim (Bool-cases (s.id s.cur == envid)) [
            | inl t ↦
                rw (e, null-false s.cur cur, t)
                  (returns _ refl (
                    ready_exits us vs n others q f i
                      (rw t (run_scheduler-Settled _ (us ++ vs) ns (xs ++ n ∷ []) fs w'))))
            | inr t ↦
                rw (e, null-false s.cur cur, t)
                  (returns _ refl (ready_exits us vs n others q f i (rw t (refl, w'))))
          ]
    ]

-- sched_exit_env always ends. The first environment with the identifier, which it looks for among the new
-- ones and then among the ready ones in the order of each queue, goes to the end of the exited ones, and the order of the others
-- stays; where it is a ready one with the current environment's identifier, the scheduler then runs the
-- next one. Without such an environment nothing changes. The lists and the statuses agree before the
-- call, and after it, and there is a current environment.
pub sched_exit_env-Exited :
    (fuel envid : ℕ) (s : Envs) (ts ns xs fs : List ℕ)
    → Queues s ts ns xs fs
    → length ns < fuel
    → length ts < fuel
    → s.cur ≢ null
    → Returns (Exited envid s ts ns xs fs) (sched_exit_env fuel envid s)
unfolding sched_exit_env
sched_exit_env-Exited fuel envid s ts ns xs fs v enough enough' cur =
    elim (find_env-Found fuel envid s.id s.sched.links s.sched.new.first ns v.new.first_is v.new.seg
      enough) [
        | returns none e h ↦ rw e (exit_ready-Exited fuel envid s ts ns xs fs v h enough' cur)
        | returns (some n) e (us, vs, q, f, i) ↦
            let (w, l) =
              remove_new-Queues n s ts us vs xs fs (subst (λ l. Queues s ts l xs fs) q v) in
            rw e (
              returns _ refl (
                new_exits us vs n q f i refl
                  (insert_exit-Queues n (on_sched (sched_remove_new n) s) ts (us ++ vs) xs fs w l)))
      ]
