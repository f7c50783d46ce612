-- ===== src/Envs/Kills.antt =====
-- The commands of kern/sched.c that free environments.
use mathlib.Core.Path.{subst}
use os_memory_management.Base.{
  ℕ, ◌<◌, ◌≡◌, ◌≢◌, refl, sym, ◌∙◌, inl, inr, arith, false, Bool-cases, ◌==◌, ==_iff, none, some,
  List, ◌∷◌, ◌++◌, All, All-right, length, Returns, returns, update,
}
use os_memory_management.Queue.{null}
use os_memory_management.Queue.Seg.{null-false}
use os_memory_management.Sched.{sched_remove_ready, sched_remove_new, sched_remove_exit}
use os_memory_management.Envs.{
  Envs, Control, returned, on_sched, free_environment, kill_exit, kill_ready, sched_kill_env,
}
use os_memory_management.Envs.Queues.{Queues}
use os_memory_management.Envs.Moves.{remove_new-Queues, remove_exit-Queues}
use os_memory_management.Envs.Turnover.{remove_ready-Queues, free_environment-Queues}
use os_memory_management.Envs.Find.{FirstReady, find_env-Found, find_env-turn}

-- What sched_kill_env does: the first environment with the identifier, among the new, the ready and the
-- exited ones in the order of their queues, is free, and the call returns; without one nothing changes.
pub data Killed (envid : ℕ) (s : Envs) (ts ns xs fs : List ℕ) (r : Control × Envs) : Type 0 where
  absent :
      All (λ a. s.id a ≢ envid) ns
      → All (λ a. s.id a ≢ envid) ts
      → All (λ a. s.id a ≢ envid) xs
      → r ≡ (returned, s)
      → Killed envid s ts ns xs fs r
  new_killed :
      (us vs : List ℕ) (e : ℕ)
      → ns ≡ us ++ e ∷ vs
      → All (λ a. s.id a ≢ envid) us
      → s.id e ≡ envid
      → (r.0 ≡ returned) × (r.1.cur ≡ s.cur)
      → Queues r.1 ts (us ++ vs) xs (e ∷ fs)
      → Killed envid s ts ns xs fs r
  ready_killed :
      (us vs : List ℕ) (e : ℕ)
      → All (λ a. s.id a ≢ envid) ns
      → ts ≡ us ++ e ∷ vs
      → FirstReady s.id envid s.sched e
      → s.id e ≡ envid
      → (r.0 ≡ returned) × (r.1.cur ≡ s.cur)
      → Queues r.1 (us ++ vs) ns xs (e ∷ fs)
      → Killed envid s ts ns xs fs r
  exit_killed :
      (us vs : List ℕ) (e : ℕ)
      → All (λ a. s.id a ≢ envid) ns
      → All (λ a. s.id a ≢ envid) ts
      → xs ≡ us ++ e ∷ vs
      → All (λ a. s.id a ≢ envid) us
      → s.id e ≡ envid
      → (r.0 ≡ returned) × (r.1.cur ≡ s.cur)
      → Queues r.1 ts ns (us ++ vs) (e ∷ fs)
      → Killed envid s ts ns xs fs r

-- No other of the environments has the identifier of the current one.
abbrev pub CurrentAlone : Envs → List ℕ → Type 0
CurrentAlone s ts = All (λ a. s.id a ≡ s.id s.cur → a ≡ s.cur) ts

freed-cur : (e : ℕ) (s : Envs) → (free_environment e s).cur ≡ s.cur
unfolding free_environment
freed-cur e s = refl

kill_exit-Killed :
    (fuel envid : ℕ) (s : Envs) (ts ns xs fs : List ℕ)
    → Queues s ts ns xs fs
    → All (λ a. s.id a ≢ envid) ns
    → All (λ a. s.id a ≢ envid) ts
    → length xs < fuel
    → Returns (Killed envid s ts ns xs fs) (kill_exit fuel envid s)
unfolding kill_exit
kill_exit-Killed fuel envid s ts ns xs fs v out out' enough =
    elim (find_env-Found fuel envid s.id s.sched.links s.sched.exit.first xs v.exit.first_is
      v.exit.seg enough) [
        | returns none e h ↦ rw e (returns _ refl (absent out out' h refl))
        | returns (some n) e (us, vs, q, f, i) ↦
            let (w, l) =
              remove_exit-Queues n s ts ns us vs fs (subst (λ l. Queues s ts ns l fs) q v) in
            rw e (
              returns _ refl (
                exit_killed us vs n out out' q f i
                  (refl, freed-cur n (on_sched (sched_remove_exit n) s))
                  (free_environment-Queues n (on_sched (sched_remove_exit n) s) ts ns (us ++ vs) fs
                    w l)))
      ]

freed-id : (e : ℕ) (s : Envs) → (free_environment e s).id ≡ update s.id e 0
unfolding free_environment
freed-id e s = refl

-- A freed environment has no identifier any more, so that the test for the current one fails.
id-freed :
    (envid n cur : ℕ) (id : ℕ → ℕ)
    → envid ≢ 0
    → id n ≡ envid
    → (id n ≡ id cur → n ≡ cur)
    → (update id n 0 cur == envid) ≡ false
id-freed envid n cur id nz i alone = elim (Bool-cases (cur == n)) [
  | inl t ↦ rw t (ground (arith, nz))
  | inr t ↦ rw t (elim (Bool-cases (id cur == envid)) [
    | inr f ↦ f
    | inl same ↦
        let q : n ≡ cur = alone (i ∙ sym ((==_iff (id cur) envid).0 same)) in ground (arith, q, t)
  ])
]

kill_ready-Killed :
    (fuel envid : ℕ) (s : Envs) (ts ns xs fs : List ℕ)
    → Queues s ts ns xs fs
    → All (λ a. s.id a ≢ envid) ns
    → length ts < fuel
    → length xs < fuel
    → envid ≢ 0
    → s.cur ≢ null
    → CurrentAlone s ts
    → Returns (Killed envid s ts ns xs fs) (kill_ready fuel envid s)
unfolding kill_ready free_environment
kill_ready-Killed fuel envid s ts ns xs fs v out enough enough' nz cur alone =
    elim (find_env-turn fuel envid s.id s.sched ts v.turn enough) [
      | returns none e h ↦ rw e (kill_exit-Killed fuel envid s ts ns xs fs v out h enough')
      | returns (some n) e (us, vs, q, f, i) ↦
          let (w, l) =
            remove_ready-Queues n s us vs ns xs fs (subst (λ l. Queues s l ns xs fs) q v) in
          let s1 = on_sched (sched_remove_ready n) s in
          let alone' =
            (All-right (λ a. s.id a ≡ s.id s.cur → a ≡ s.cur) us (n ∷ vs)
              (subst (CurrentAlone s) q alone)).0 in
          rw
            (
              e,
              freed-cur n s1,
              null-false s.cur cur,
              freed-id n s1,
              id-freed envid n s.cur s.id nz i alone',
            )
            (returns (returned, free_environment n s1) refl
              (ready_killed us vs n out q f i (refl, freed-cur n s1)
                (free_environment-Queues n s1 (us ++ vs) ns xs fs w l)))
    ]

-- sched_kill_env of an identifier that is not 0 frees the first environment with it, in the order of the queues
-- and with the new ones first, then the ready and then the exited ones, and always returns, also where this is the current environment: curenv stays,
-- since the comparison comes after the identifier is cleared. The lists and the statuses agree before
-- and after the call, there is a current environment, and no other ready one has its identifier.
pub sched_kill_env-Killed :
    (fuel envid : ℕ) (s : Envs) (ts ns xs fs : List ℕ)
    → Queues s ts ns xs fs
    → length ts < fuel
    → length ns < fuel
    → length xs < fuel
    → envid ≢ 0
    → s.cur ≢ null
    → CurrentAlone s ts
    → Returns (Killed envid s ts ns xs fs) (sched_kill_env fuel envid s)
unfolding sched_kill_env
sched_kill_env-Killed fuel envid s ts ns xs fs v enough enough' enough'' nz cur alone =
    elim (find_env-Found fuel envid s.id s.sched.links s.sched.new.first ns v.new.first_is v.new.seg
      enough') [
        | returns none e h ↦
            rw e (kill_ready-Killed fuel envid s ts ns xs fs v h enough enough'' nz cur alone)
        | returns (some n) e (us, vs, q, f, i) ↦
            let (w, l) =
              remove_new-Queues n s ts us vs xs fs (subst (λ l. Queues s ts l xs fs) q v) in
            rw e (
              returns _ refl (
                new_killed us vs n q f i (refl, freed-cur n (on_sched (sched_remove_new n) s))
                  (free_environment-Queues n (on_sched (sched_remove_new n) s) ts (us ++ vs) xs fs w
                    l)))
      ]
