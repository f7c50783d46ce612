-- ===== src/Envs/Reach.antt =====
-- The states that the life of environments reaches from the kernel's start.
use mathlib.Core.Path.{subst}
use os_memory_management.Base.{
  ℕ, ◌+◌, ◌&&◌, leb, if◌then◌else◌, ltb, ◌<◌, ◌≡◌, ◌≢◌, refl, sym, ap, ◌∙◌, arith, Bool, true,
  false, Option, none, some, List, [], ◌∷◌, ◌++◌, All, length, Run, ok, Returns, returns,
}
use os_memory_management.Queue.{null, list_init}
use os_memory_management.Sched.{sched_init, sched_insert_new, env_unknown}
use os_memory_management.Envs.{
  Envs, Control, entered, nenv, on_sched, env_init, allocate_environment, complete_environment,
  sched_run_all, sched_run_env, sched_exit_env, sched_kill_env, sched_kill_all, run_scheduler,
  set_status,
}
use os_memory_management.Envs.Queues.{Queues}
use os_memory_management.Envs.Counting.{
  weigh, weigh-append, weigh_split, weigh_snoc, weigh-length, spot, occurs, occurs-upto,
}
use os_memory_management.Envs.Moves.{insert_new-Queues}
use os_memory_management.Envs.Turnover.{allocate-first, create-Queues}
use os_memory_management.Envs.Find.{Settled, rotate, run_scheduler-Settled}
use os_memory_management.Envs.Init.{upto, length-upto, env_init-Queues}
use os_memory_management.Envs.Commands.{
  sched_run_all-Settled, RunOne, nobody, started, sched_run_env-RunOne, Exited, absent, new_exits,
  ready_exits, sched_exit_env-Exited,
}
use os_memory_management.Envs.Kills.{
  Killed, new_killed, ready_killed, exit_killed, sched_kill_env-Killed,
}
use os_memory_management.Envs.KillAll.{Gathered, gathered, sched_kill_all-Gathered}

-- env_create with sched_new_env where an environment is free; the commands, as far as they return or the
-- scheduler runs; and the clock's call of fos_scheduler. The fuel is more than there are environments.
pub data Reachable : Envs → Type 0 where
  boot : (s : Envs) → s.free ≡ list_init → Reachable (env_init (on_sched sched_init s))
  create :
      {s : Envs} (e : ℕ) (s1 : Envs)
      → Reachable s
      → allocate_environment s ≡ (some e, s1)
      → Reachable (on_sched (sched_insert_new e) (complete_environment e s1))
  run_all :
      {s : Envs} (fuel : ℕ) (r : Control × Envs)
      → Reachable s
      → nenv < fuel
      → sched_run_all fuel s ≡ ok r
      → Reachable r.1
  run_env :
      {s : Envs} (fuel envid : ℕ) (r : Control × Envs)
      → Reachable s
      → nenv < fuel
      → sched_run_env fuel envid s ≡ ok r
      → Reachable r.1
  exit_env :
      {s : Envs} (fuel envid : ℕ) (r : Control × Envs)
      → Reachable s
      → nenv < fuel
      → s.cur ≢ null
      → sched_exit_env fuel envid s ≡ ok r
      → Reachable r.1
  kill_env :
      {s : Envs} (fuel envid : ℕ) (r : Control × Envs)
      → Reachable s
      → nenv < fuel
      → envid ≢ 0
      → s.cur ≢ null
      → ((a : ℕ) → s.id a ≡ s.id s.cur → a ≡ s.cur)
      → sched_kill_env fuel envid s ≡ ok r
      → Reachable r.1
  kill_all :
      {s : Envs} (fuel : ℕ) (r : Control × Envs)
      → Reachable s
      → nenv < fuel
      → sched_kill_all fuel s ≡ ok r
      → Reachable r.1
  clock : {s : Envs} → Reachable s → Reachable (run_scheduler s).1

-- The pointers to the environments
unfoldable all_envs : List ℕ
all_envs = upto 1 nenv

length-all_envs : weigh (λ x. 1) all_envs ≡ nenv
unfolding all_envs
length-all_envs = weigh-length (upto 1 nenv) ∙ length-upto 1 nenv

occurs-all_envs : (a : ℕ) → occurs a all_envs ≡ (if leb 1 a && ltb a (1 + nenv) then 1 else 0)
unfolding all_envs
occurs-all_envs a = occurs-upto a 1 nenv

-- The four lists hold the environments 1 to `NENV`, whatever an environment weighs.
abbrev Whole : List ℕ → List ℕ → List ℕ → List ℕ → Type 0
Whole ts ns xs fs =
    (w : ℕ → ℕ) → weigh w ts + weigh w ns + weigh w xs + weigh w fs ≡ weigh w all_envs

data Kept (s : Envs) : Type 0 where
  whole_lists : (ts ns xs fs : List ℕ) → Queues s ts ns xs fs → Whole ts ns xs fs → Kept s

Whole-length :
    (ts ns xs fs : List ℕ)
    → Whole ts ns xs fs
    → length ts + length ns + length xs + length fs ≡ nenv
Whole-length ts ns xs fs whole = omega (
  arith,
  whole (λ x. 1),
  weigh-length ts,
  weigh-length ns,
  weigh-length xs,
  weigh-length fs,
  length-all_envs,
)

weigh-rotate : (w : ℕ → ℕ) (ts : List ℕ) → weigh w (rotate ts) ≡ weigh w ts
weigh-rotate w [] = refl
weigh-rotate w (t ∷ ts) = weigh_snoc w ts t

Settled-Kept :
    (b : Bool) (ts ns xs fs : List ℕ) (r : Control × Envs)
    → Settled b ts ns xs fs r
    → Whole ts ns xs fs
    → Kept r.1
Settled-Kept true ts ns xs fs r h len = whole_lists ts ns xs fs h.1 len
Settled-Kept false ts ns xs fs r h len =
    whole_lists (rotate ts) ns xs fs h.1 (λ w. omega (arith, weigh-rotate w ts, len w))

ok-injective : {A : Type 0} {x y : A} → ok x ≡ ok y → x ≡ y
ok-injective q = cc

-- The value of a run that returns
the_value : {A : Type 0} (P : A → Type 0) (r : Run A) (a : A) → r ≡ ok a → Returns P r → P a
the_value P r a e (returns b q h) = subst P (ok-injective (sym q ∙ e)) h

RunOne-Kept :
    (envid : ℕ) (s : Envs) (ts ns xs fs : List ℕ) (r : Control × Envs)
    → Queues s ts ns xs fs
    → Whole ts ns xs fs
    → RunOne envid s ts ns xs fs r
    → Kept r.1
RunOne-Kept envid s ts ns xs fs r v len (nobody h q) = rw q (whole_lists ts ns xs fs v len)
RunOne-Kept envid s ts ns xs fs r v len (started us vs e q f i h) =
    Settled-Kept s.sched.started (ts ++ e ∷ []) (us ++ vs) xs fs r h
      (λ w. omega (arith, len w, weigh_split w us vs ns e q, weigh_snoc w ts e))

Exited-Kept :
    (envid : ℕ) (s : Envs) (ts ns xs fs : List ℕ) (r : Control × Envs)
    → Queues s ts ns xs fs
    → Whole ts ns xs fs
    → Exited envid s ts ns xs fs r
    → Kept r.1
Exited-Kept envid s ts ns xs fs r v len (absent h k q) = rw q (whole_lists ts ns xs fs v len)
Exited-Kept envid s ts ns xs fs r v len (new_exits us vs e q f i c w) =
    whole_lists ts (us ++ vs) (xs ++ e ∷ []) fs w
      (λ w. omega (arith, len w, weigh_split w us vs ns e q, weigh_snoc w xs e))
Exited-Kept envid s ts ns xs fs r v len (ready_exits us vs e h q f i w) =
    Settled-Kept _ (us ++ vs) ns (xs ++ e ∷ []) fs r w
      (λ w. omega (arith, len w, weigh_split w us vs ts e q, weigh_snoc w xs e))

Killed-Kept :
    (envid : ℕ) (s : Envs) (ts ns xs fs : List ℕ) (r : Control × Envs)
    → Queues s ts ns xs fs
    → Whole ts ns xs fs
    → Killed envid s ts ns xs fs r
    → Kept r.1
Killed-Kept envid s ts ns xs fs r v len (Killed.absent h k l q) =
    rw q (whole_lists ts ns xs fs v len)
Killed-Kept envid s ts ns xs fs r v len (new_killed us vs e q f i c w) =
    whole_lists ts (us ++ vs) xs (e ∷ fs) w (λ w. omega (arith, len w, weigh_split w us vs ns e q))
Killed-Kept envid s ts ns xs fs r v len (ready_killed us vs e h q f i c w) =
    whole_lists (us ++ vs) ns xs (e ∷ fs) w (λ w. omega (arith, len w, weigh_split w us vs ts e q))
Killed-Kept envid s ts ns xs fs r v len (exit_killed us vs e h k q f i c w) =
    whole_lists ts ns (us ++ vs) (e ∷ fs) w (λ w. omega (arith, len w, weigh_split w us vs xs e q))

Gathered-Kept :
    (ts ns xs fs : List ℕ) (s : Envs)
    → Whole ts ns xs fs
    → Gathered [] [] [] (ts ++ (ns ++ xs)) fs s
    → Kept s
Gathered-Kept ts ns xs fs s whole (gathered gs v all) =
    whole_lists [] [] [] gs v
      (λ w. omega (arith, whole w, all w, weigh-append w ts (ns ++ xs), weigh-append w ns xs))

everywhere : (P : ℕ → Type 0) (xs : List ℕ) → ((a : ℕ) → P a) → All P xs
everywhere P [] h = tt
everywhere P (x ∷ xs) h = (h x, everywhere P xs h)

allocate-null : (s : Envs) → s.free.first ≡ null → (allocate_environment s).0 ≡ none
unfolding allocate_environment
allocate-null s q = rw q refl

allocate-none :
    (s : Envs) (e : ℕ) (s1 : Envs) → s.free.first ≡ null → ¬ (allocate_environment s ≡ (some e, s1))
allocate-none s e s1 q a =
    let none_there : none ≡ some e =
      sym (allocate-null s q) ∙ ap (λ (p : Option ℕ × Envs). p.0) a in
    cc

some-same : {x y : ℕ} → some x ≡ some y → x ≡ y
some-same q = cc

create-Kept :
    (s : Envs) (e : ℕ) (s1 : Envs)
    → Kept s
    → allocate_environment s ≡ (some e, s1)
    → Kept (on_sched (sched_insert_new e) (complete_environment e s1))
create-Kept s e s1 (whole_lists ts ns xs [] v len) a =
    absurd (allocate-none s e s1 v.free.first_is a)
create-Kept s e s1 (whole_lists ts ns xs (f ∷ fs) v len) a =
    let q = sym (allocate-first f s fs v.free) ∙ a in
    let same : f ≡ e = some-same (ap (λ (p : Option ℕ × Envs). p.0) q) in
    let after : set_status f env_unknown s ≡ s1 = ap (λ (p : Option ℕ × Envs). p.1) q in
    let (w, l) = create-Queues f s ts ns xs fs v in
    let s2 = complete_environment f (set_status f env_unknown s) in
    let w' = insert_new-Queues f s2 ts ns xs fs w l in
    subst (λ t. Kept (on_sched (sched_insert_new e) (complete_environment e t))) after
      (subst
        (λ d.
          Kept
            (on_sched (sched_insert_new d) (complete_environment d (set_status f env_unknown s))))
        same
        (whole_lists ts (ns ++ f ∷ []) xs fs w' (λ w. omega (arith, len w, weigh_snoc w ns f))))

boot-Queues :
    (s : Envs) → s.free ≡ list_init → Queues (env_init (on_sched sched_init s)) [] [] [] all_envs
unfolding all_envs
boot-Queues s e = env_init-Queues s e

boot-Kept : (s : Envs) → s.free ≡ list_init → Kept (env_init (on_sched sched_init s))
boot-Kept s e = whole_lists [] [] [] all_envs (boot-Queues s e) (λ w. omega arith)

-- What a command keeps, given its result where the lists are known
kept :
    {s : Envs} (P : List ℕ → List ℕ → List ℕ → List ℕ → Control × Envs → Type 0)
    (run : Run (Control × Envs)) (r : Control × Envs)
    → Kept s
    → run ≡ ok r
    → ((ts ns xs fs : List ℕ)
        → Queues s ts ns xs fs
        → Whole ts ns xs fs
        → Returns (P ts ns xs fs) run)
    → ((ts ns xs fs : List ℕ)
        → Queues s ts ns xs fs
        → Whole ts ns xs fs
        → P ts ns xs fs r
        → Kept r.1)
    → Kept r.1
kept P run r (whole_lists ts ns xs fs v len) e does keeps =
    keeps ts ns xs fs v len (the_value (P ts ns xs fs) run r e (does ts ns xs fs v len))

Reachable-Kept : {s : Envs} → Reachable s → Kept s
Reachable-Kept (boot s e) = boot-Kept s e
Reachable-Kept (create {s} e s1 p a) = create-Kept s e s1 (Reachable-Kept p) a
Reachable-Kept (run_all {s} fuel r p enough e) =
    kept (λ ts ns xs fs. Settled s.sched.started (ts ++ ns) [] xs fs) (sched_run_all fuel s) r
      (Reachable-Kept p) e
      (λ ts ns xs fs v len.
        sched_run_all-Settled fuel s ts ns xs fs v (omega (arith, Whole-length ts ns xs fs len)))
      (λ ts ns xs fs v len h.
        Settled-Kept _ (ts ++ ns) [] xs fs r h (λ w. omega (arith, len w, weigh-append w ts ns)))
Reachable-Kept (run_env {s} fuel envid r p enough e) =
    kept (RunOne envid s) (sched_run_env fuel envid s) r (Reachable-Kept p) e
      (λ ts ns xs fs v len.
        sched_run_env-RunOne fuel envid s ts ns xs fs v
          (omega (arith, Whole-length ts ns xs fs len)))
      (λ ts ns xs fs v len. RunOne-Kept envid s ts ns xs fs r v len)
Reachable-Kept (exit_env {s} fuel envid r p enough cur e) =
    kept (Exited envid s) (sched_exit_env fuel envid s) r (Reachable-Kept p) e
      (λ ts ns xs fs v len.
        sched_exit_env-Exited fuel envid s ts ns xs fs v
          (omega (arith, Whole-length ts ns xs fs len))
          (omega (arith, Whole-length ts ns xs fs len)) cur)
      (λ ts ns xs fs v len. Exited-Kept envid s ts ns xs fs r v len)
Reachable-Kept (kill_env {s} fuel envid r p enough nz cur alone e) =
    kept (Killed envid s) (sched_kill_env fuel envid s) r (Reachable-Kept p) e
      (λ ts ns xs fs v len.
        sched_kill_env-Killed fuel envid s ts ns xs fs v
          (omega (arith, Whole-length ts ns xs fs len))
          (omega (arith, Whole-length ts ns xs fs len))
          (omega (arith, Whole-length ts ns xs fs len)) nz cur
          (everywhere (λ a. s.id a ≡ s.id s.cur → a ≡ s.cur) ts alone))
      (λ ts ns xs fs v len. Killed-Kept envid s ts ns xs fs r v len)
Reachable-Kept (kill_all {s} fuel r p enough e) =
    kept
      (λ ts ns xs fs r.
        (r.0 ≡ entered none) × (r.1.cur ≡ null) × Gathered [] [] [] (ts ++ (ns ++ xs)) fs r.1)
      (sched_kill_all fuel s) r (Reachable-Kept p) e
      (λ ts ns xs fs v len.
        sched_kill_all-Gathered fuel s ts ns xs fs v (omega (arith, Whole-length ts ns xs fs len))
          (omega (arith, Whole-length ts ns xs fs len))
          (omega (arith, Whole-length ts ns xs fs len)))
      (λ ts ns xs fs v len h. Gathered-Kept ts ns xs fs r.1 len h.2)
Reachable-Kept (clock {s} p) = elim (Reachable-Kept p) [
  | whole_lists ts ns xs fs v len ↦
      Settled-Kept false ts ns xs fs (run_scheduler s) (run_scheduler-Settled s ts ns xs fs v) len
]

-- The lists and the statuses agree, and each environment, from the pointer 1 to the first up to the pointer
-- `NENV` to the last, stands once in one of the four lists; nothing else stands there.
pub data Complete (s : Envs) : Type 0 where
  complete :
      (ts ns xs fs : List ℕ)
      → Queues s ts ns xs fs
      → ((a : ℕ)
          → occurs a ts + occurs a ns + occurs a xs + occurs a fs
            ≡ (if leb 1 a && leb a nenv then 1 else 0))
      → length ts + length ns + length xs + length fs ≡ nenv
      → Complete s

in_range :
    (a : ℕ)
    → ◌≡◌ {A = ℕ}
        (if leb 1 a && ltb a (1 + nenv) then 1 else 0)
        (if leb 1 a && leb a nenv then 1 else 0)
in_range a = ground arith

-- In every state that is reached from the start of the kernel the lists and the statuses agree, and each of the
-- `NENV` environments stands in exactly one of the four lists, once: none is lost, none is in two lists, and
-- the lists have no other elements. The commands are those that return or enter the scheduler; for exits and
-- kills there is a current environment, whose identifier no other has.
pub Reachable-Complete : {s : Envs} → Reachable s → Complete s
Reachable-Complete p = elim (Reachable-Kept p) [
  | whole_lists ts ns xs fs v whole ↦
      complete ts ns xs fs v (λ a. whole (spot a) ∙ occurs-all_envs a ∙ in_range a)
        (Whole-length ts ns xs fs whole)
]
