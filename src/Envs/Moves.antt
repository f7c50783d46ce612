-- ===== src/Envs/Moves.antt =====
-- One environment moves between the lists.
use mathlib.Core.Path.{subst}
use os_memory_management.Base.{
  ℕ, ◌≡◌, ◌≢◌, refl, sym, ◌∙◌, inl, inr, arith, Bool-cases, ◌==◌, List, [], ◌∷◌, ◌++◌, All-append,
  Avoids, Distinct-delete, update, update_self,
}
use os_memory_management.Queue.{null}
use os_memory_management.Queue.Seg.{IsList, null-false, IsList-frame}
use os_memory_management.Queue.Remove.{remove_lem}
use os_memory_management.Queue.Insert.{insert_tail_lem}
use os_memory_management.Sched.{
  Sched, sched_insert_ready, sched_insert_new, sched_remove_new, sched_insert_exit,
  sched_remove_exit, env_ready, env_new, env_exit, env_unknown,
}
use os_memory_management.Sched.Turn.{Seg-at, sched_insert_ready-InTurn}
use os_memory_management.Envs.{Envs, env_free, on_sched}
use os_memory_management.Envs.Statuses.{
  HasStatus, HasStatus-Avoids, HasStatus-Disjoint, HasStatus-update, Disjoint-append_one,
  All-delete,
}
use os_memory_management.Envs.Queues.{Queues, IsLoose, InTurn-frame, insert_ready-outside}

-- A move into a list: sched_insert_new, sched_insert_ready and sched_insert_exit.
pub insert_new-Queues :
    (e : ℕ) (s : Envs) (ts ns xs fs : List ℕ)
    → Queues s ts ns xs fs
    → IsLoose e ts ns xs fs
    → Queues (on_sched (sched_insert_new e) s) ts (ns ++ e ∷ []) xs fs
unfolding sched_insert_new
insert_new-Queues e s ts ns xs fs v l =
    let st = s.sched.status in
    let w = insert_tail_lem e s.sched.new s.sched.links ns v.new l.not_null l.not_new in
    let apart =
      λ (k : ℕ) (us : List ℕ) (h : HasStatus st k us) (ne : k ≢ env_new) (out : Avoids e us).
        Disjoint-append_one e us ns (HasStatus-Disjoint st k env_new us ns h v.new_are ne) out in
    rw (null-false e l.not_null) record {
      turn =
          InTurn-frame s.sched _ (ns ++ e ∷ []) ts refl refl w.1
            (apart env_ready ts v.ready_are (omega arith) l.not_ready) v.turn;
      new = w.0;
      exit =
          IsList-frame s.sched.exit s.sched.links _ (ns ++ e ∷ []) xs w.1
            (apart env_exit xs v.exit_are (omega arith) l.not_exit) v.exit;
      free =
          IsList-frame s.free s.sched.links _ (ns ++ e ∷ []) fs w.1
            (apart env_free fs v.free_are (omega arith) l.not_free) v.free;
      ready_are = HasStatus-update st env_ready e env_new ts l.not_ready v.ready_are;
      new_are =
          All-append (λ a. update st e env_new a ≡ env_new) ns (e ∷ [])
            (HasStatus-update st env_new e env_new ns l.not_new v.new_are)
            (update_self st e env_new, tt);
      exit_are = HasStatus-update st env_exit e env_new xs l.not_exit v.exit_are;
      free_are = HasStatus-update st env_free e env_new fs l.not_free v.free_are;
    }

pub insert_exit-Queues :
    (e : ℕ) (s : Envs) (ts ns xs fs : List ℕ)
    → Queues s ts ns xs fs
    → IsLoose e ts ns xs fs
    → Queues (on_sched (sched_insert_exit e) s) ts ns (xs ++ e ∷ []) fs
unfolding sched_insert_exit
insert_exit-Queues e s ts ns xs fs v l =
    let st = s.sched.status in
    let w = insert_tail_lem e s.sched.exit s.sched.links xs v.exit l.not_null l.not_exit in
    let apart =
      λ (k : ℕ) (us : List ℕ) (h : HasStatus st k us) (ne : k ≢ env_exit) (out : Avoids e us).
        Disjoint-append_one e us xs (HasStatus-Disjoint st k env_exit us xs h v.exit_are ne) out in
    rw (null-false e l.not_null) record {
      turn =
          InTurn-frame s.sched _ (xs ++ e ∷ []) ts refl refl w.1
            (apart env_ready ts v.ready_are (omega arith) l.not_ready) v.turn;
      exit = w.0;
      new =
          IsList-frame s.sched.new s.sched.links _ (xs ++ e ∷ []) ns w.1
            (apart env_new ns v.new_are (omega arith) l.not_new) v.new;
      free =
          IsList-frame s.free s.sched.links _ (xs ++ e ∷ []) fs w.1
            (apart env_free fs v.free_are (omega arith) l.not_free) v.free;
      ready_are = HasStatus-update st env_ready e env_exit ts l.not_ready v.ready_are;
      exit_are =
          All-append (λ a. update st e env_exit a ≡ env_exit) xs (e ∷ [])
            (HasStatus-update st env_exit e env_exit xs l.not_exit v.exit_are)
            (update_self st e env_exit, tt);
      new_are = HasStatus-update st env_new e env_exit ns l.not_new v.new_are;
      free_are = HasStatus-update st env_free e env_exit fs l.not_free v.free_are;
    }

-- What sched_insert_ready does not write.
pub insert_ready-rest :
    (e : ℕ) (q : Sched)
    → e ≢ null
    → ((sched_insert_ready e q).new ≡ q.new)
      × ((sched_insert_ready e q).exit ≡ q.exit)
      × ((sched_insert_ready e q).status ≡ update q.status e env_ready)
      × ((sched_insert_ready e q).started ≡ q.started)
unfolding sched_insert_ready
insert_ready-rest e q nn = rw (null-false e nn) (elim (Bool-cases (q.next == null)) [
  | inl t ↦ rw t (refl, refl, refl, refl)
  | inr t ↦ rw t (refl, refl, refl, refl)
])

pub insert_ready-Queues :
    (e : ℕ) (s : Envs) (ts ns xs fs : List ℕ)
    → Queues s ts ns xs fs
    → IsLoose e ts ns xs fs
    → Queues (on_sched (sched_insert_ready e) s) (ts ++ e ∷ []) ns xs fs
insert_ready-Queues e s ts ns xs fs v l =
    let st = s.sched.status in
    let q' = sched_insert_ready e s.sched in
    let rest = insert_ready-rest e s.sched l.not_null in
    let out = insert_ready-outside e s.sched ts v.turn l.not_null l.not_ready in
    let apart =
      λ (k : ℕ) (us : List ℕ) (h : HasStatus st k us) (ne : k ≢ env_ready) (out : Avoids e us).
        Disjoint-append_one e us ts (HasStatus-Disjoint st k env_ready us ts h v.ready_are ne)
          out in
    let now = λ (k : ℕ) (us : List ℕ) (h : HasStatus (update st e env_ready) k us).
      subst (λ f. HasStatus f k us) (sym rest.2) h in
    record {
      turn = sched_insert_ready-InTurn e s.sched ts v.turn l.not_null l.not_ready;
      new =
          subst (λ h. IsList h q'.links ns) (sym rest.0)
            (IsList-frame s.sched.new s.sched.links q'.links (ts ++ e ∷ []) ns out
              (apart env_new ns v.new_are (omega arith) l.not_new) v.new);
      exit =
          subst (λ h. IsList h q'.links xs) (sym rest.1)
            (IsList-frame s.sched.exit s.sched.links q'.links (ts ++ e ∷ []) xs out
              (apart env_exit xs v.exit_are (omega arith) l.not_exit) v.exit);
      free =
          IsList-frame s.free s.sched.links q'.links (ts ++ e ∷ []) fs out
            (apart env_free fs v.free_are (omega arith) l.not_free) v.free;
      ready_are = now env_ready (ts ++ e ∷ []) (
          All-append (λ a. update st e env_ready a ≡ env_ready) ts (e ∷ [])
            (HasStatus-update st env_ready e env_ready ts l.not_ready v.ready_are)
            (update_self st e env_ready, tt));
      new_are = now env_new ns (HasStatus-update st env_new e env_ready ns l.not_new v.new_are);
      exit_are =
          now env_exit xs (HasStatus-update st env_exit e env_ready xs l.not_exit v.exit_are);
      free_are =
          now env_free fs (HasStatus-update st env_free e env_ready fs l.not_free v.free_are);
    }

-- A move out of a list: sched_remove_new, sched_remove_exit and sched_remove_ready.
pub remove_new-Queues :
    (e : ℕ) (s : Envs) (ts us vs xs fs : List ℕ)
    → Queues s ts (us ++ e ∷ vs) xs fs
    → Queues (on_sched (sched_remove_new e) s) ts (us ++ vs) xs fs × IsLoose e ts (us ++ vs) xs fs
unfolding sched_remove_new
remove_new-Queues e s ts us vs xs fs v =
    let st = s.sched.status in
    let ns = us ++ e ∷ vs in
    let w = remove_lem e s.sched.new s.sched.links us vs v.new in
    let nn = (Seg-at s.sched.links null us e vs v.new.seg).0 in
    let (here, others) = All-delete (λ a. st a ≡ env_new) us e vs v.new_are in
    let apart = λ (k : ℕ) (l : List ℕ) (h : HasStatus st k l) (ne : k ≢ env_new).
      HasStatus-Disjoint st k env_new l ns h v.new_are ne in
    let out = λ (k : ℕ) (l : List ℕ) (h : HasStatus st k l) (ne : env_new ≢ k).
      HasStatus-Avoids st k e l h (λ q. ne (sym here ∙ q)) in
    let not_ready = out env_ready ts v.ready_are (omega arith) in
    let not_exit = out env_exit xs v.exit_are (omega arith) in
    let not_free = out env_free fs v.free_are (omega arith) in
    let not_new = (Distinct-delete e us vs v.new.distinct).1 in
    rw (null-false e nn) (
      record {
        turn =
            InTurn-frame s.sched _ ns ts refl refl w.1
              (apart env_ready ts v.ready_are (omega arith)) v.turn;
        new = w.0;
        exit =
            IsList-frame s.sched.exit s.sched.links _ ns xs w.1
              (apart env_exit xs v.exit_are (omega arith)) v.exit;
        free =
            IsList-frame s.free s.sched.links _ ns fs w.1
              (apart env_free fs v.free_are (omega arith)) v.free;
        ready_are = HasStatus-update st env_ready e env_unknown ts not_ready v.ready_are;
        new_are = HasStatus-update st env_new e env_unknown (us ++ vs) not_new others;
        exit_are = HasStatus-update st env_exit e env_unknown xs not_exit v.exit_are;
        free_are = HasStatus-update st env_free e env_unknown fs not_free v.free_are;
      },
      record {
        not_null = nn;
        not_ready = not_ready;
        not_new = not_new;
        not_exit = not_exit;
        not_free = not_free;
      },
    )

pub remove_exit-Queues :
    (e : ℕ) (s : Envs) (ts ns us vs fs : List ℕ)
    → Queues s ts ns (us ++ e ∷ vs) fs
    → Queues (on_sched (sched_remove_exit e) s) ts ns (us ++ vs) fs × IsLoose e ts ns (us ++ vs) fs
unfolding sched_remove_exit
remove_exit-Queues e s ts ns us vs fs v =
    let st = s.sched.status in
    let xs = us ++ e ∷ vs in
    let w = remove_lem e s.sched.exit s.sched.links us vs v.exit in
    let nn = (Seg-at s.sched.links null us e vs v.exit.seg).0 in
    let (here, others) = All-delete (λ a. st a ≡ env_exit) us e vs v.exit_are in
    let apart = λ (k : ℕ) (l : List ℕ) (h : HasStatus st k l) (ne : k ≢ env_exit).
      HasStatus-Disjoint st k env_exit l xs h v.exit_are ne in
    let out = λ (k : ℕ) (l : List ℕ) (h : HasStatus st k l) (ne : env_exit ≢ k).
      HasStatus-Avoids st k e l h (λ q. ne (sym here ∙ q)) in
    let not_ready = out env_ready ts v.ready_are (omega arith) in
    let not_new = out env_new ns v.new_are (omega arith) in
    let not_free = out env_free fs v.free_are (omega arith) in
    let not_exit = (Distinct-delete e us vs v.exit.distinct).1 in
    rw (null-false e nn) (
      record {
        turn =
            InTurn-frame s.sched _ xs ts refl refl w.1
              (apart env_ready ts v.ready_are (omega arith)) v.turn;
        exit = w.0;
        new =
            IsList-frame s.sched.new s.sched.links _ xs ns w.1
              (apart env_new ns v.new_are (omega arith)) v.new;
        free =
            IsList-frame s.free s.sched.links _ xs fs w.1
              (apart env_free fs v.free_are (omega arith)) v.free;
        ready_are = HasStatus-update st env_ready e env_unknown ts not_ready v.ready_are;
        new_are = HasStatus-update st env_new e env_unknown ns not_new v.new_are;
        exit_are = HasStatus-update st env_exit e env_unknown (us ++ vs) not_exit others;
        free_are = HasStatus-update st env_free e env_unknown fs not_free v.free_are;
      },
      record {
        not_null = nn;
        not_ready = not_ready;
        not_new = not_new;
        not_exit = not_exit;
        not_free = not_free;
      },
    )
