-- ===== src/Envs.antt =====
-- kern/user_environment.c, kern/sched.c and kern/helpers.c: the life of an environment, from the list of
-- free environments through the scheduler's queues and back. The pointer to envs[i] is the number i + 1,
-- so that 0 is NULL. Page buffering is off. Of complete_environment_initialization the identifier, the
-- status and the list are here, and of env_free what becomes of the `struct Env`: the registers, the
-- memory and the page file are in other parts.
pub mod Statuses
pub mod Queues
pub mod Moves
pub mod Turnover
pub mod Find
pub mod Commands
pub mod Kills
pub mod KillAll
pub mod Init
pub mod Counting
pub mod Reach
pub mod Ids
use os_memory_management.Base.{
  ℕ, zero, suc, ◌+◌, ◌-◌, ◌^◌, Bool, ◌&&◌, ◌||◌, not, Option, none, some, List, [], ◌∷◌, leb, ◌==◌,
  if◌then◌else◌, update, bit_and, bit_or, Run, ok, fault, out_of_fuel, ◌>>=◌,
}
use os_memory_management.Mmu.{add32}
use os_memory_management.Queue.{null, Head, Links, set_next, set_prev, insert_head, remove}
use os_memory_management.Sched.{
  Sched, sched_insert_ready, sched_remove_ready, sched_insert_new, sched_remove_new,
  sched_insert_exit, sched_remove_exit, fos_scheduler, env_new, env_unknown,
}

-- `NENV`: `PTSIZE / 4` by the 760 bytes of a `struct Env`
abbrev pub nenv : ℕ
nenv = 1379

-- `ENV_FREE`
abbrev pub env_free : ℕ
env_free = 0

-- The scheduler's globals, env_free_list, the members env_id and env_parent_id, and curenv.
pub record Envs : Type 0 where
  pub sched : Sched
  pub free : Head
  pub id : ℕ → ℕ
  pub parent : ℕ → ℕ
  pub cur : ℕ

-- `env->env_status = v`, and a list operation's result for env_free_list
abbrev pub set_status : ℕ → ℕ → Envs → Envs
set_status env v s = record s { sched = record s.sched { status = update s.sched.status env v } }

abbrev pub set_free : Head × Links → Envs → Envs
set_free (h, l) s = record s { sched = record s.sched { links = l }; free = h }

-- One round of env_init
unfoldable pub init_env : ℕ → Envs → Envs
init_env env s0 =
    let s = set_status env env_free s0 in
    set_free (insert_head env s.free s.sched.links) (record s { id = update s.id env 0 })

unfoldable pub init_envs : ℕ → Envs → Envs
unfolding init_env
init_envs zero s = s
init_envs (suc i) s = init_envs i (init_env (suc i) s)

-- env_init
unfoldable pub env_init : Envs → Envs
unfolding init_envs
env_init s = init_envs nenv s

-- allocate_environment: `none` is E_NO_FREE_ENV.
unfoldable pub allocate_environment : Envs → Option ℕ × Envs
allocate_environment s =
    if s.free.first == null
    then (none, s)
    else (some s.free.first, set_status s.free.first env_unknown s)

-- The identifier that complete_environment_initialization gives to an environment: `~(NENV - 1)` is
-- 2^32 - NENV, and ENVGENSHIFT is 12.
unfoldable pub new_id : ℕ → ℕ → ℕ
new_id env old =
    let generation = bit_and (add32 old 4096) (2 ^ 32 - nenv) in
    bit_or (if generation == 0 || leb (2 ^ 31) generation then 4096 else generation) (env - 1)

-- complete_environment_initialization
unfoldable pub complete_environment : ℕ → Envs → Envs
unfolding new_id
complete_environment env s0 =
    let s = set_status env env_new s0 in
    set_free (remove env s.free s.sched.links)
      (record s { id = update s.id env (new_id env (s.id env)); parent = update s.parent env 0 })

-- free_environment: memset clears the links, too.
unfoldable pub free_environment : ℕ → Envs → Envs
unfolding set_next set_prev
free_environment env s0 =
    let s = set_status env env_free s0 in
    set_free (insert_head env s.free (set_prev (set_next s.sched.links env null) env null))
      (record s { id = update s.id env 0; parent = update s.parent env 0 })

-- `ENVX(envid)`, and envid2env: `none` is -E_BAD_ENV.
abbrev pub env_index : ℕ → ℕ
env_index envid = bit_and envid (nenv - 1)

unfoldable pub envid2env : ℕ → Bool → Envs → Option ℕ
envid2env envid checkperm s =
    let e = env_index envid + 1 in
    if envid == 0
    then some s.cur
    else (if s.sched.status e == env_free || not (s.id e == envid)
        then none
        else (if checkperm && not (e == s.cur) && not (s.parent e == s.id s.cur)
            then none
            else some e))

-- What a call does in the end: it returns, or it does not, since the scheduler runs an environment or,
-- without one, the command prompt.
pub data Control : Type 0 where
  returned : Control
  entered : Option ℕ → Control

-- What curenv is where the scheduler runs this.
abbrev pub current_of : Option ℕ → ℕ
current_of none = null
current_of (some e) = e

-- fos_scheduler with env_run, which sets curenv
unfoldable pub run_scheduler : Envs → Control × Envs
unfolding fos_scheduler
run_scheduler s =
    let r = fos_scheduler s.sched in (entered r.0, record s { sched = r.1; cur = current_of r.0 })

-- A change of the queues
abbrev pub on_sched : (Sched → Sched) → Envs → Envs
on_sched f s = record s { sched = f s.sched }

-- The loop of sched_run_all, which has the next element before the body moves this one.
unfoldable pub run_new : ℕ → ℕ → Sched → Run Sched
run_new zero env s = out_of_fuel
run_new (suc fuel) env s =
    let rest = run_new fuel (s.links.next env) (sched_insert_ready env (sched_remove_new env s)) in
    if env == null then ok s else rest

-- sched_run_all
unfoldable pub sched_run_all : ℕ → Envs → Run (Control × Envs)
sched_run_all fuel s = run_new fuel s.sched.new.first s.sched >>= (λ q.
    let s1 = record s { sched = q } in
    if q.started then ok (returned, s1) else ok (run_scheduler s1))

-- A search by LIST_FOREACH for the environment with an identifier
unfoldable pub find_env : ℕ → ℕ → (ℕ → ℕ) → ℕ → Links → Run (Option ℕ)
find_env zero envid id env l = out_of_fuel
find_env (suc fuel) envid id env l =
    let rest = find_env fuel envid id (l.next env) l in
    if env == null then ok none else if id env == envid then ok (some env) else rest

-- sched_run_env
unfoldable pub sched_run_env : ℕ → ℕ → Envs → Run (Control × Envs)
sched_run_env fuel envid s = find_env fuel envid s.id s.sched.new.first s.sched.links >>= (λ found.
    elim found [
      | none ↦ ok (returned, s)
      | some e ↦
          let s1 = on_sched (λ q. sched_insert_ready e (sched_remove_new e q)) s in
          if s1.sched.started then ok (returned, s1) else ok (run_scheduler s1)
    ])

-- sched_exit_env: reading the identifier of no current environment is a fault.
unfoldable pub exit_ready : ℕ → ℕ → Envs → Run (Control × Envs)
exit_ready fuel envid s = find_env fuel envid s.id s.sched.ready.first s.sched.links >>= (λ found.
    elim found [
      | none ↦ ok (returned, s)
      | some e ↦
          let s1 = on_sched (λ q. sched_insert_exit e (sched_remove_ready e q)) s in
          if s1.cur == null
          then fault
          else if s1.id s1.cur == envid
          then ok (run_scheduler s1)
          else ok (returned, s1)
    ])

unfoldable pub sched_exit_env : ℕ → ℕ → Envs → Run (Control × Envs)
sched_exit_env fuel envid s = find_env fuel envid s.id s.sched.new.first s.sched.links >>= (λ found.
    elim found [
      | some e ↦ ok (returned, on_sched (λ q. sched_insert_exit e (sched_remove_new e q)) s)
      | none ↦ exit_ready fuel envid s
    ])

-- sched_kill_env
unfoldable pub kill_exit : ℕ → ℕ → Envs → Run (Control × Envs)
kill_exit fuel envid s = find_env fuel envid s.id s.sched.exit.first s.sched.links >>= (λ found.
    elim found [
      | none ↦ ok (returned, s)
      | some e ↦ ok (returned, free_environment e (on_sched (sched_remove_exit e) s))
    ])

unfoldable pub kill_ready : ℕ → ℕ → Envs → Run (Control × Envs)
kill_ready fuel envid s = find_env fuel envid s.id s.sched.ready.first s.sched.links >>= (λ found.
    elim found [
      | none ↦ kill_exit fuel envid s
      | some e ↦
          let s1 = free_environment e (on_sched (sched_remove_ready e) s) in
          if s1.cur == null
          then fault
          else if s1.id s1.cur == envid
          then ok (run_scheduler (record s1 { cur = null }))
          else ok (returned, s1)
    ])

unfoldable pub sched_kill_env : ℕ → ℕ → Envs → Run (Control × Envs)
sched_kill_env fuel envid s = find_env fuel envid s.id s.sched.new.first s.sched.links >>= (λ found.
    elim found [
      | some e ↦ ok (returned, free_environment e (on_sched (sched_remove_new e) s))
      | none ↦ kill_ready fuel envid s
    ])

-- A loop of sched_kill_all, which has the next element before the body frees this one.
unfoldable pub kill_queue : (ℕ → Sched → Sched) → ℕ → ℕ → Envs → Run Envs
kill_queue leave zero env s = out_of_fuel
kill_queue leave (suc fuel) env s =
    let rest =
      kill_queue leave fuel (s.sched.links.next env)
        (free_environment env (on_sched (leave env) s)) in
    if env == null then ok s else rest

-- sched_kill_all
unfoldable pub sched_kill_all : ℕ → Envs → Run (Control × Envs)
sched_kill_all fuel s = kill_queue sched_remove_new fuel s.sched.new.first s >>= (λ s1.
    kill_queue sched_remove_ready fuel s1.sched.ready.first s1 >>= (λ s2.
      kill_queue sched_remove_exit fuel s2.sched.exit.first s2 >>= (λ s3. ok (run_scheduler s3))))

-- env_exit
unfoldable pub env_exit_current : ℕ → Envs → Run (Control × Envs)
env_exit_current fuel s =
    if s.cur == null
    then fault
    else sched_exit_env fuel (s.id s.cur) s
      >>= (λ r. elim r.0 [ entered o ↦ ok r | returned ↦ ok (run_scheduler r.1) ])
