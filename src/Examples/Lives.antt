-- ===== src/Examples/Lives.antt =====
-- The environments of kern/user_environment.c and kern/sched.c with some in every list.
use os_memory_management.Base.{
  ℕ, ◌+◌, ◌-◌, ◌<◌, ◌≡◌, ◌⊎◌, Bool-cases, refl, arith, inl, inr, false, true, some, none, [], ◌∷◌,
  update, bit_and, ◌==◌, if◌then◌else◌, Returns,
}
use os_memory_management.Queue.{list_init}
use os_memory_management.Sched.{sched_insert_new, sched_init}
use os_memory_management.Sched.Turn.{InTurn}
use os_memory_management.Envs.{
  Envs, nenv, on_sched, set_status, env_init, envid2env, sched_run_all, sched_exit_env,
  sched_kill_env, sched_kill_all, run_scheduler, allocate_environment, complete_environment,
  free_environment, entered,
}
use os_memory_management.Sched.{env_unknown}
use os_memory_management.Envs.Turnover.{allocate-first}
use os_memory_management.Envs.Queues.{Queues}
use os_memory_management.Envs.Init.{upto, env_init-Queues}
use os_memory_management.Envs.Ids.{complete-free-id, envid2env-index}
use os_memory_management.Envs.Find.{Settled}
use os_memory_management.Envs.Commands.{sched_run_all-Settled, Exited, sched_exit_env-Exited}
use os_memory_management.Envs.Kills.{Killed, sched_kill_env-Killed}
use os_memory_management.Envs.KillAll.{Freed, sched_kill_all-Freed}
use os_memory_management.Envs.Reach.{Reachable, Complete, Reachable-Complete}

-- 2 is ready and current, 3 and 4 are new, 5 has exited, and 6 and 7 are free.
abbrev envs : Envs
envs = record {
  sched = record {
    ready = record { first = 2; last = 2; size = 1 };
    new = record { first = 3; last = 4; size = 2 };
    exit = record { first = 5; last = 5; size = 1 };
    links = record {
      next = update (update (λ a. 0) 3 4) 6 7;
      prev = update (update (λ a. 0) 4 3) 7 6;
    };
    next = 2;
    status = update (update (update (update (λ a. 0) 2 1) 3 3) 4 3) 5 4;
    started = true;
  };
  free = record { first = 6; last = 7; size = 2 };
  id = update (update (update (update (λ a. 0) 2 4097) 3 4098) 4 4099) 5 4100;
  parent = λ a. 0;
  cur = 2;
}

envs-Queues : Queues envs (2 ∷ []) (3 ∷ 4 ∷ []) (5 ∷ []) (6 ∷ 7 ∷ [])
envs-Queues = record {
  turn =
      InTurn.turn [] [] 2
        record {
          first_is = refl;
          last_is = refl;
          size_is = refl;
          seg = omega arith;
          distinct = omega arith;
        }
        refl refl;
  new = record {
    first_is = refl;
    last_is = refl;
    size_is = refl;
    seg = omega arith;
    distinct = omega arith;
  };
  exit = record {
    first_is = refl;
    last_is = refl;
    size_is = refl;
    seg = omega arith;
    distinct = omega arith;
  };
  free = record {
    first_is = refl;
    last_is = refl;
    size_is = refl;
    seg = omega arith;
    distinct = omega arith;
  };
  ready_are = omega arith;
  new_are = omega arith;
  exit_are = omega arith;
  free_are = omega arith;
}

run_all_example :
    Returns (Settled true (2 ∷ 3 ∷ 4 ∷ []) [] (5 ∷ []) (6 ∷ 7 ∷ [])) (sched_run_all 9 envs)
run_all_example =
    sched_run_all-Settled 9 envs (2 ∷ []) (3 ∷ 4 ∷ []) (5 ∷ []) (6 ∷ 7 ∷ []) envs-Queues
      (omega arith)

exit_example :
    Returns
      (Exited 4097 envs (2 ∷ []) (3 ∷ 4 ∷ []) (5 ∷ []) (6 ∷ 7 ∷ []))
      (sched_exit_env 9 4097 envs)
exit_example =
    sched_exit_env-Exited 9 4097 envs (2 ∷ []) (3 ∷ 4 ∷ []) (5 ∷ []) (6 ∷ 7 ∷ []) envs-Queues
      (omega arith) (omega arith) (omega arith)

kill_example :
    Returns
      (Killed 4097 envs (2 ∷ []) (3 ∷ 4 ∷ []) (5 ∷ []) (6 ∷ 7 ∷ []))
      (sched_kill_env 9 4097 envs)
kill_example =
    sched_kill_env-Killed 9 4097 envs (2 ∷ []) (3 ∷ 4 ∷ []) (5 ∷ []) (6 ∷ 7 ∷ []) envs-Queues
      (omega arith) (omega arith) (omega arith) (omega arith) (omega arith) ((λ e. refl), tt)

kill_all_example :
    Returns
      (λ r.
        (r.0 ≡ entered none)
        × (r.1.cur ≡ 0)
        × Freed (2 ∷ []) (3 ∷ 4 ∷ []) (5 ∷ []) (6 ∷ 7 ∷ []) r.1)
      (sched_kill_all 9 envs)
kill_all_example =
    sched_kill_all-Freed 9 envs (2 ∷ []) (3 ∷ 4 ∷ []) (5 ∷ []) (6 ∷ 7 ∷ []) envs-Queues
      (omega arith) (omega arith) (omega arith)

-- The state before the kernel's start
abbrev blank : Envs
blank = record {
  sched = record {
    ready = list_init;
    new = list_init;
    exit = list_init;
    links = record { next = λ a. 0; prev = λ a. 0 };
    next = 0;
    status = λ a. 0;
    started = false;
  };
  free = list_init;
  id = λ a. 0;
  parent = λ a. 0;
  cur = 0;
}

abbrev booted : Envs
booted = env_init (on_sched sched_init blank)

-- The first environment is allocated, and becomes new.
abbrev first_new : Envs
first_new = on_sched (sched_insert_new 1) (complete_environment 1 (set_status 1 env_unknown booted))

first_allocated : allocate_environment booted ≡ (some 1, set_status 1 env_unknown booted)
first_allocated = allocate-first 1 booted (upto 2 1378) (env_init-Queues blank refl).free

-- After the start the first environment is created, and the clock calls the scheduler.
reach_example : Complete (run_scheduler first_new).1
reach_example = Reachable-Complete (
    Reachable.clock (
      Reachable.create 1 (set_status 1 env_unknown booted) (Reachable.boot blank refl)
        first_allocated))

same_id_example :
    (complete_environment 3 (set_status 3 env_unknown (free_environment 3 envs))).id 3 ≡ 4098
same_id_example = complete-free-id 2 envs (omega arith)

-- An environment with index 1, whose identifier is not found
abbrev second : Envs
second = record blank {
  id = update (λ a. 0) 2 4097;
  sched = record blank.sched { status = update (λ a. 0) 2 1 };
}

second-numbered : (i : ℕ) → i < nenv → (second.id (i + 1) ≡ 0) ⊎ (second.id (i + 1) ≡ 4096 + i)
second-numbered i lt = elim (Bool-cases (i == 1)) [
  | inl same ↦ inr (ground (arith, same))
  | inr other ↦ inl (ground (arith, other))
]

envid2env_example :
    envid2env 4097 false second ≡ (if bit_and 1 (nenv - 1) == 1 then some 2 else none)
envid2env_example = envid2env-index 1 second second-numbered (omega arith) refl (omega arith)

envid2env_test : envid2env 4097 false second ≡ none
unfolding envid2env
envid2env_test = refl
