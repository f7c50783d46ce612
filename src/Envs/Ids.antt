-- ===== src/Envs/Ids.antt =====
-- The identifiers of the environments.
use os_memory_management.Base.{
  ℕ, zero, suc, ◌+◌, ◌-◌, ◌<◌, ◌≡◌, ◌≢◌, ◌⊎◌, inl, inr, refl, ap, ◌∙◌, arith, Bool, true, false,
  ◌&&◌, Bool-cases, ◌==◌, ==_iff, none, some, if◌then◌else◌, update, update_self, bit_and, ltb,
  ltb→lt,
}
use os_memory_management.Sched.{env_unknown}
use os_memory_management.Envs.{
  Envs, nenv, env_free, set_status, new_id, env_index, envid2env, complete_environment,
  free_environment,
}

-- A test for the numbers below a bound, by evaluation
each : (ℕ → Bool) → ℕ → Bool
each test zero = true
each test (suc i) = each test i && test i

each-at : (test : ℕ → Bool) (i bound : ℕ) → i < bound → each test bound ≡ true → test i ≡ true
unfolding each
each-at test i zero lt passed = absurd (omega arith)
each-at test i (suc k) lt passed = ground (arith, each-at test i k)

new_id-table : each (λ i. new_id (i + 1) 0 == 4096 + i) nenv ≡ true
unfolding each new_id
new_id-table = refl

index-table : each (λ i. env_index (4096 + i) == bit_and i (nenv - 1)) nenv ≡ true
unfolding each
index-table = refl

index-small : each (λ i. ltb (bit_and i (nenv - 1)) nenv) nenv ≡ true
unfolding each
index-small = refl

-- The identifier of an environment that had none
new_id-fresh : (i : ℕ) → i < nenv → new_id (i + 1) 0 ≡ 4096 + i
new_id-fresh i lt =
    (==_iff _ _).0 (each-at (λ i. new_id (i + 1) 0 == 4096 + i) i nenv lt new_id-table)

-- An environment that is freed and created again gets the same identifier, 4096 and its index in `envs`,
-- every time: an identifier does not tell an environment from an earlier one in the same place.
pub complete-free-id :
    (i : ℕ) (s : Envs)
    → i < nenv
    → (complete_environment
          (i + 1)
          (set_status (i + 1) env_unknown (free_environment (i + 1) s))).id
        (i + 1)
      ≡ 4096 + i
unfolding complete_environment free_environment
complete-free-id i s lt =
    update_self (update s.id (i + 1) 0) (i + 1) (new_id (i + 1) (update s.id (i + 1) 0 (i + 1)))
    ∙ ap (new_id (i + 1)) (update_self s.id (i + 1) 0)
    ∙ new_id-fresh i lt

-- Every identifier is the one that complete_environment_initialization gives, or none.
abbrev pub IsNumbered : Envs → Type 0
IsNumbered s = (i : ℕ) → i < nenv → (s.id (i + 1) ≡ 0) ⊎ (s.id (i + 1) ≡ 4096 + i)

found_at :
    (envid x : ℕ) (s : Envs)
    → env_index envid ≡ x
    → envid ≢ 0
    → s.id (x + 1) ≡ envid
    → s.sched.status (x + 1) ≢ env_free
    → envid2env envid false s ≡ some (x + 1)
unfolding envid2env
found_at envid x s q nz i st = rw (q, i) (ground (arith, nz, st))

not_found_at :
    (envid x : ℕ) (s : Envs)
    → env_index envid ≡ x
    → envid ≢ 0
    → s.id (x + 1) ≢ envid
    → envid2env envid false s ≡ none
unfolding envid2env
not_found_at envid x s q nz i = rw q (ground (arith, nz, i))

other_id : (i j : ℕ) (s : Envs) → IsNumbered s → j < nenv → i ≢ j → s.id (j + 1) ≢ 4096 + i
other_id i j s v lt ne e = elim (v j lt) [
  | inl zero_id ↦ omega (arith, zero_id, e)
  | inr own ↦ ne (omega (arith, own, e))
]

nonzero : (i : ℕ) → 4096 + i ≢ 0
nonzero i e = omega (arith, e)

-- envid2env of the identifier of an environment that is not free finds it only where its index has no
-- bit that `NENV - 1` lacks; for every other index it fails, as `NENV` is no power of two. The
-- identifiers are those that complete_environment_initialization gives.
pub envid2env-index :
    (i : ℕ) (s : Envs)
    → IsNumbered s
    → i < nenv
    → s.id (i + 1) ≡ 4096 + i
    → s.sched.status (i + 1) ≢ env_free
    → envid2env (4096 + i) false s ≡ (if bit_and i (nenv - 1) == i then some (i + 1) else none)
envid2env-index i s v lt own st =
    let index =
      (==_iff _ _).0
        (each-at (λ i. env_index (4096 + i) == bit_and i (nenv - 1)) i nenv lt index-table) in
    let small = ltb→lt _ _ (each-at (λ i. ltb (bit_and i (nenv - 1)) nenv) i nenv lt index-small) in
    elim (Bool-cases (bit_and i (nenv - 1) == i)) [
      | inl same ↦
          let q = index ∙ (==_iff _ _).0 same in
          rw same (found_at (4096 + i) i s q (nonzero i) own st)
      | inr other ↦ rw other (
          not_found_at (4096 + i) (bit_and i (nenv - 1)) s index (nonzero i)
            (other_id i (bit_and i (nenv - 1)) s v small (λ e. ground (arith, other, e))))
    ]
