-- ===== src/Examples/Turns.antt =====
-- kern/sched.c with three ready environments.
use os_memory_management.Base.{◌≡◌, refl, false, some, [], ◌∷◌, arith, update}
use os_memory_management.Queue.{list_init}
use os_memory_management.Sched.{Sched}
use os_memory_management.Sched.Turn.{InTurn, picks, fos_scheduler-round}

-- The ready queue is 1, 2, 3, and it is the turn of 2.
abbrev sched : Sched
sched = record {
  ready = record { first = 1; last = 3; size = 3 };
  new = list_init;
  exit = list_init;
  links = record {
    next = update (update (λ a. 0) 1 2) 2 3;
    prev = update (update (λ a. 0) 2 1) 3 2;
  };
  next = 2;
  status = λ a. 1;
  started = false;
}

sched-InTurn : InTurn sched (2 ∷ 3 ∷ 1 ∷ [])
sched-InTurn =
    InTurn.turn (1 ∷ []) (3 ∷ []) 2
      record {
        first_is = refl;
        last_is = refl;
        size_is = refl;
        seg = omega arith;
        distinct = omega arith;
      }
      refl refl

round_example :
    ((picks 3 sched).0 ≡ some 2 ∷ some 3 ∷ some 1 ∷ []) × InTurn (picks 3 sched).1 (2 ∷ 3 ∷ 1 ∷ [])
round_example = fos_scheduler-round (2 ∷ 3 ∷ 1 ∷ []) [] sched sched-InTurn
