-- ===== src/Envs/Init.antt =====
-- env_init of kern/user_environment.c.
use mathlib.Core.Path.{subst}
use os_memory_management.Base.{
  ℕ, zero, suc, ◌+◌, ◌<◌, ◌≡◌, ◌≢◌, refl, sym, ap, arith, List, [], ◌∷◌, length, Avoids,
  update_self,
}
use os_memory_management.Queue.{null, list_init}
use os_memory_management.Queue.Seg.{IsList, IsList-frame}
use os_memory_management.Queue.Insert.{insert_head_lem}
use os_memory_management.Sched.{sched_init}
use os_memory_management.Sched.Turn.{InTurn}
use os_memory_management.Envs.{Envs, nenv, env_free, on_sched, init_env, init_envs, env_init}
use os_memory_management.Envs.Statuses.{HasStatus-update}
use os_memory_management.Envs.Queues.{Queues, InTurn-frame}

-- `n` environments from `k` on
abbrev pub upto : ℕ → ℕ → List ℕ
upto k zero = []
upto k (suc n) = k ∷ upto (suc k) n

pub length-upto : (k n : ℕ) → length (upto k n) ≡ n
length-upto k zero = refl
length-upto k (suc n) = ap suc (length-upto (suc k) n)

upto-Avoids : (e k n : ℕ) → e < k → Avoids e (upto k n)
upto-Avoids e k zero lt = tt
upto-Avoids e k (suc n) lt = ((λ q. omega (arith, q)), upto-Avoids e (suc k) n (omega arith))

init_env-Queues :
    (e n : ℕ) (s : Envs)
    → e ≢ null
    → Queues s [] [] [] (upto (suc e) n)
    → Queues (init_env e s) [] [] [] (upto e (suc n))
unfolding init_env
init_env-Queues e n s nn v =
    let fs = upto (suc e) n in
    let out = upto-Avoids e (suc e) n (omega arith) in
    let w = insert_head_lem e s.free s.sched.links fs v.free nn out in
    record {
      turn = InTurn-frame s.sched _ (e ∷ fs) [] refl refl w.1 tt v.turn;
      new = IsList-frame s.sched.new s.sched.links _ (e ∷ fs) [] w.1 tt v.new;
      exit = IsList-frame s.sched.exit s.sched.links _ (e ∷ fs) [] w.1 tt v.exit;
      free = w.0;
      ready_are = tt;
      new_are = tt;
      exit_are = tt;
      free_are = (
        update_self s.sched.status e env_free,
        HasStatus-update s.sched.status env_free e env_free fs out v.free_are,
      );
    }

init_envs-Queues :
    (i n : ℕ) (s : Envs)
    → Queues s [] [] [] (upto (suc i) n)
    → Queues (init_envs i s) [] [] [] (upto 1 (i + n))
unfolding init_envs
init_envs-Queues zero n s v =
    subst (λ k. Queues s [] [] [] (upto 1 k)) {x = n} {y = 0 + n} (omega arith) v
init_envs-Queues (suc i) n s v =
    subst (λ k. Queues (init_envs i (init_env (suc i) s)) [] [] [] (upto 1 k)) {x = i + suc n}
      {y = suc i + n} (omega arith)
      (init_envs-Queues i (suc n) (init_env (suc i) s)
        (init_env-Queues (suc i) n s (omega arith) v))

-- After sched_init and env_init all environments are free, and the list of free ones holds them in the
-- order of the array `envs`; no environment is new, ready or exited. The list head is zero before.
pub env_init-Queues :
    (s : Envs)
    → s.free ≡ list_init
    → Queues (env_init (on_sched sched_init s)) [] [] [] (upto 1 nenv)
unfolding env_init sched_init list_init
env_init-Queues s e = init_envs-Queues nenv 0 (on_sched sched_init s) record {
  turn = InTurn.idle empty refl refl;
  new = empty;
  exit = empty;
  free = subst (λ h. IsList h s.sched.links []) (sym e) empty;
  ready_are = tt;
  new_are = tt;
  exit_are = tt;
  free_are = tt;
}
  where
    empty : IsList list_init s.sched.links []
    empty = record { first_is = refl; last_is = refl; size_is = refl; seg = tt; distinct = tt }
