-- ===== src/Envs/Turnover.antt =====
-- An environment leaves the ready queue, is created, or becomes free.
use mathlib.Core.Path.{subst}
use mathlib.Core.List.{append-nil}
use os_memory_management.Base.{
  ℕ, ◌≡◌, ◌≢◌, refl, sym, ◌∙◌, arith, some, List, [], ◌∷◌, ◌++◌, Avoids, Distinct, Distinct-delete,
  Distinct-insert, update, update_self, update-ne,
}
use os_memory_management.Queue.{null, Head, Links, insert_head, set_next, set_prev}
use os_memory_management.Queue.Seg.{IsList, null-false, SameOutside, Disjoint, IsList-frame}
use os_memory_management.Queue.Remove.{remove_lem}
use os_memory_management.Queue.Insert.{insert_head_lem}
use os_memory_management.Sched.{
  Sched, sched_remove_ready, env_ready, env_new, env_exit, env_unknown,
}
use os_memory_management.Sched.Turn.{InTurn}
use os_memory_management.Sched.Leave.{sched_remove_ready-InTurn}
use os_memory_management.Envs.{
  Envs, env_free, on_sched, set_status, allocate_environment, complete_environment,
  free_environment,
}
use os_memory_management.Envs.Statuses.{
  HasStatus, HasStatus-Avoids, HasStatus-Disjoint, HasStatus-update, Disjoint-cons, All-swap,
  All-delete,
}
use os_memory_management.Envs.Queues.{Queues, IsLoose, InTurn-frame, remove_ready-outside}

Distinct-swap : (xs ys : List ℕ) → Distinct (xs ++ ys) → Distinct (ys ++ xs)
Distinct-swap [] ys d = subst Distinct (sym (append-nil ys)) d
Distinct-swap (x ∷ xs) ys d =
    Distinct-insert x ys xs (Distinct-swap xs ys d.1) (All-swap (λ a. a ≢ x) xs ys d.0)

InTurn-Distinct : (s : Sched) (ts : List ℕ) → InTurn s ts → Distinct ts
InTurn-Distinct s ts (InTurn.idle v e q) = subst Distinct (sym q) tt
InTurn-Distinct s ts (InTurn.turn xs ys n v e q) =
    subst Distinct (sym q) (Distinct-swap xs (n ∷ ys) v.distinct)

-- What sched_remove_ready does not write.
remove_ready-rest :
    (e : ℕ) (q : Sched)
    → e ≢ null
    → ((sched_remove_ready e q).new ≡ q.new)
      × ((sched_remove_ready e q).exit ≡ q.exit)
      × ((sched_remove_ready e q).status ≡ update q.status e env_unknown)
unfolding sched_remove_ready
remove_ready-rest e q nn = rw (null-false e nn) (refl, refl, refl)

pub remove_ready-Queues :
    (e : ℕ) (s : Envs) (us vs ns xs fs : List ℕ)
    → Queues s (us ++ e ∷ vs) ns xs fs
    → Queues (on_sched (sched_remove_ready e) s) (us ++ vs) ns xs fs × IsLoose e (us ++ vs) ns xs fs
remove_ready-Queues e s us vs ns xs fs v =
    let st = s.sched.status in
    let ts = us ++ e ∷ vs in
    let q' = sched_remove_ready e s.sched in
    let (nn, w) = remove_ready-outside s.sched us vs e v.turn in
    let rest = remove_ready-rest e s.sched nn in
    let (here, others) = All-delete (λ a. st a ≡ env_ready) us e vs v.ready_are in
    let apart = λ (k : ℕ) (l : List ℕ) (h : HasStatus st k l) (ne : k ≢ env_ready).
      HasStatus-Disjoint st k env_ready l ts h v.ready_are ne in
    let out = λ (k : ℕ) (l : List ℕ) (h : HasStatus st k l) (ne : env_ready ≢ k).
      HasStatus-Avoids st k e l h (λ q. ne (sym here ∙ q)) in
    let not_new = out env_new ns v.new_are (omega arith) in
    let not_exit = out env_exit xs v.exit_are (omega arith) in
    let not_free = out env_free fs v.free_are (omega arith) in
    let not_ready = (Distinct-delete e us vs (InTurn-Distinct s.sched ts v.turn)).1 in
    let now = λ (k : ℕ) (l : List ℕ) (o : Avoids e l) (h : HasStatus st k l).
      subst (λ f. HasStatus f k l) (sym rest.2) (HasStatus-update st k e env_unknown l o h) in
    (
      record {
        turn = sched_remove_ready-InTurn s.sched us vs e v.turn;
        new =
            subst (λ h. IsList h q'.links ns) (sym rest.0)
              (IsList-frame s.sched.new s.sched.links q'.links ts ns w
                (apart env_new ns v.new_are (omega arith)) v.new);
        exit =
            subst (λ h. IsList h q'.links xs) (sym rest.1)
              (IsList-frame s.sched.exit s.sched.links q'.links ts xs w
                (apart env_exit xs v.exit_are (omega arith)) v.exit);
        free =
            IsList-frame s.free s.sched.links q'.links ts fs w
              (apart env_free fs v.free_are (omega arith)) v.free;
        ready_are = now env_ready (us ++ vs) not_ready others;
        new_are = now env_new ns not_new v.new_are;
        exit_are = now env_exit xs not_exit v.exit_are;
        free_are = now env_free fs not_free v.free_are;
      },
      record {
        not_null = nn;
        not_ready = not_ready;
        not_new = not_new;
        not_exit = not_exit;
        not_free = not_free;
      },
    )

-- allocate_environment finds the first free environment.
pub allocate-first :
    (e : ℕ) (s : Envs) (fs : List ℕ)
    → IsList s.free s.sched.links (e ∷ fs)
    → allocate_environment s ≡ (some e, set_status e env_unknown s)
unfolding allocate_environment
allocate-first e s fs v = rw (v.first_is, null-false e v.seg.0) refl

-- allocate_environment and then complete_environment_initialization take it out of the free list.
pub create-Queues :
    (e : ℕ) (s : Envs) (ts ns xs fs : List ℕ)
    → Queues s ts ns xs (e ∷ fs)
    → Queues (complete_environment e (set_status e env_unknown s)) ts ns xs fs
      × IsLoose e ts ns xs fs
unfolding complete_environment
create-Queues e s ts ns xs fs v =
    let st = s.sched.status in
    let w = remove_lem e s.free s.sched.links [] fs v.free in
    let apart = λ (k : ℕ) (l : List ℕ) (h : HasStatus st k l) (ne : k ≢ env_free).
      HasStatus-Disjoint st k env_free l (e ∷ fs) h v.free_are ne in
    let out = λ (k : ℕ) (l : List ℕ) (h : HasStatus st k l) (ne : env_free ≢ k).
      HasStatus-Avoids st k e l h (λ q. ne (sym v.free_are.0 ∙ q)) in
    let not_ready = out env_ready ts v.ready_are (omega arith) in
    let not_new = out env_new ns v.new_are (omega arith) in
    let not_exit = out env_exit xs v.exit_are (omega arith) in
    let not_free = v.free.distinct.0 in
    let now = λ (k : ℕ) (l : List ℕ) (o : Avoids e l) (h : HasStatus st k l).
      HasStatus-update (update st e env_unknown) k e env_new l o
        (HasStatus-update st k e env_unknown l o h) in
    (
      record {
        turn =
            InTurn-frame s.sched _ (e ∷ fs) ts refl refl w.1
              (apart env_ready ts v.ready_are (omega arith)) v.turn;
        new =
            IsList-frame s.sched.new s.sched.links _ (e ∷ fs) ns w.1
              (apart env_new ns v.new_are (omega arith)) v.new;
        exit =
            IsList-frame s.sched.exit s.sched.links _ (e ∷ fs) xs w.1
              (apart env_exit xs v.exit_are (omega arith)) v.exit;
        free = w.0;
        ready_are = now env_ready ts not_ready v.ready_are;
        new_are = now env_new ns not_new v.new_are;
        exit_are = now env_exit xs not_exit v.exit_are;
        free_are = now env_free fs not_free v.free_are.1;
      },
      record {
        not_null = v.free.seg.0;
        not_ready = not_ready;
        not_new = not_new;
        not_exit = not_exit;
        not_free = not_free;
      },
    )

-- The links of a cleared `struct Env`, which is then put in front of the free list.
freed-outside :
    (e : ℕ) (l : Links) (h : Head) (fs : List ℕ)
    → IsList h l fs
    → e ≢ null
    → Avoids e fs
    → IsList
        (insert_head e h (set_prev (set_next l e null) e null)).0
        (insert_head e h (set_prev (set_next l e null) e null)).1
        (e ∷ fs)
      × SameOutside (e ∷ fs) l (insert_head e h (set_prev (set_next l e null) e null)).1
unfolding set_next set_prev
freed-outside e l h fs v nn out =
    let l1 : Links = set_prev (set_next l e null) e null in
    let same : SameOutside (e ∷ []) l l1 =
      λ a o. (update-ne l.next e a null o.0, update-ne l.prev e a null o.0) in
    let w =
      insert_head_lem e h l1 fs
        (IsList-frame h l l1 (e ∷ []) fs same (Disjoint-cons e fs [] (nothing fs) out) v) nn out in
    (w.0, λ a o. ((w.1 a o).0 ∙ (same a (o.0, tt)).0, (w.1 a o).1 ∙ (same a (o.0, tt)).1))
  where
    nothing : (xs : List ℕ) → Disjoint xs []
    nothing [] = tt
    nothing (x ∷ xs) = (tt, nothing xs)

pub free_environment-Queues :
    (e : ℕ) (s : Envs) (ts ns xs fs : List ℕ)
    → Queues s ts ns xs fs
    → IsLoose e ts ns xs fs
    → Queues (free_environment e s) ts ns xs (e ∷ fs)
unfolding free_environment
free_environment-Queues e s ts ns xs fs v l =
    let st = s.sched.status in
    let w = freed-outside e s.sched.links s.free fs v.free l.not_null l.not_free in
    let apart =
      λ (k : ℕ) (us : List ℕ) (h : HasStatus st k us) (ne : k ≢ env_free) (out : Avoids e us).
        Disjoint-cons e us fs (HasStatus-Disjoint st k env_free us fs h v.free_are ne) out in
    record {
      turn =
          InTurn-frame s.sched _ (e ∷ fs) ts refl refl w.1
            (apart env_ready ts v.ready_are (omega arith) l.not_ready) v.turn;
      new =
          IsList-frame s.sched.new s.sched.links _ (e ∷ fs) ns w.1
            (apart env_new ns v.new_are (omega arith) l.not_new) v.new;
      exit =
          IsList-frame s.sched.exit s.sched.links _ (e ∷ fs) xs w.1
            (apart env_exit xs v.exit_are (omega arith) l.not_exit) v.exit;
      free = w.0;
      ready_are = HasStatus-update st env_ready e env_free ts l.not_ready v.ready_are;
      new_are = HasStatus-update st env_new e env_free ns l.not_new v.new_are;
      exit_are = HasStatus-update st env_exit e env_free xs l.not_exit v.exit_are;
      free_are = (
        update_self st e env_free,
        HasStatus-update st env_free e env_free fs l.not_free v.free_are,
      );
    }
