-- ===== src/Sched.antt =====
-- kern/sched.c: the queues of the environments and the round robin scheduler. An environment is the
-- address of its `struct Env`.
pub mod Turn
pub mod Leave
use os_memory_management.Base.{
  ℕ, zero, suc, Bool, true, false, Option, none, some, List, [], ◌∷◌, ◌==◌, if◌then◌else◌, update,
}
use os_memory_management.Queue.{null, Head, Links, list_init, insert_before, insert_tail, remove}

-- The globals: the three queues with the links of all environments, sched_next, and the member
-- env_status of every environment. `started` is whether scheduler_status is SCH_STARTED.
pub record Sched : Type 0 where
  pub ready : Head
  pub new : Head
  pub exit : Head
  pub links : Links
  pub next : ℕ
  pub status : ℕ → ℕ
  pub started : Bool

-- `ENV_READY`, `ENV_NEW`, `ENV_EXIT` and `ENV_UNKNOWN` of inc/environment_definitions.h
abbrev pub env_ready : ℕ
env_ready = 1

abbrev pub env_new : ℕ
env_new = 3

abbrev pub env_exit : ℕ
env_exit = 4

abbrev pub env_unknown : ℕ
env_unknown = 5

-- sched_init
unfoldable pub sched_init : Sched → Sched
sched_init s = record s {
  ready = list_init;
  new = list_init;
  exit = list_init;
  next = null;
  started = false;
}

-- sched_next_circular
unfoldable pub sched_next_circular : ℕ → Sched → ℕ
sched_next_circular env s =
    if env == null
    then null
    else let next = s.links.next env in if next == null then s.ready.first else next

abbrev set_ready : Sched → Head × Links → Sched
set_ready s (h, l) = record s { ready = h; links = l }

abbrev set_new : Sched → Head × Links → Sched
set_new s (h, l) = record s { new = h; links = l }

abbrev set_exit : Sched → Head × Links → Sched
set_exit s (h, l) = record s { exit = h; links = l }

abbrev with_status : ℕ → ℕ → Sched → Sched
with_status env v s = record s { status = update s.status env v }

-- sched_insert_ready
unfoldable pub sched_insert_ready : ℕ → Sched → Sched
sched_insert_ready env s0 =
    if env == null
    then s0
    else let s = with_status env env_ready s0 in
      if s.next == null
      then record (set_ready s (insert_tail env s.ready s.links)) { next = env }
      else set_ready s (insert_before s.next env s.ready s.links)

-- sched_remove_ready
unfoldable pub sched_remove_ready : ℕ → Sched → Sched
unfolding sched_next_circular
sched_remove_ready env s =
    if env == null
    then s
    else let after = sched_next_circular env s in
      let next = if env == s.next then (if after == env then null else after) else s.next in
      with_status env env_unknown
        (set_ready (record s { next = next }) (remove env s.ready s.links))

-- sched_insert_new
unfoldable pub sched_insert_new : ℕ → Sched → Sched
sched_insert_new env s =
    if env == null then s else with_status env env_new (set_new s (insert_tail env s.new s.links))

-- sched_remove_new
unfoldable pub sched_remove_new : ℕ → Sched → Sched
sched_remove_new env s =
    if env == null then s else with_status env env_unknown (set_new s (remove env s.new s.links))

-- sched_insert_exit
unfoldable pub sched_insert_exit : ℕ → Sched → Sched
sched_insert_exit env s =
    if env == null
    then s
    else with_status env env_exit (set_exit s (insert_tail env s.exit s.links))

-- sched_remove_exit
unfoldable pub sched_remove_exit : ℕ → Sched → Sched
sched_remove_exit env s =
    if env == null then s else with_status env env_unknown (set_exit s (remove env s.exit s.links))

-- fos_scheduler up to its call of env_run, or to the command prompt: the environment to run, if there
-- is one.
unfoldable pub fos_scheduler : Sched → Option ℕ × Sched
unfolding sched_next_circular
fos_scheduler s =
    let current = s.next in
    let s1 = record s { next = sched_next_circular s.next s; started = true } in
    if current == null then (none, record s1 { started = false }) else (some current, s1)
