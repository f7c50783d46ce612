-- ===== src/PageFault/Lru.antt =====
-- LRU of kern/trap.c takes the oldest page among those whose time stamp is below 1e9.
use os_memory_management.Base.{
  ℕ, zero, suc, ◌+◌, ◌≤◌, ◌<◌, ◌≡◌, ◌⊎◌, refl, inl, inr, arith, Bool-cases, ltb, ltb→lt, from_next,
}
use os_memory_management.WorkingSet.{Element}
use os_memory_management.PageFault.{lru_scan}

-- `r` is the first of the `n` elements from `i` on with the least stamp, which is below `limit`.
pub record Oldest (ws : ℕ → Element) (limit i n r : ℕ) : Type 0 where
  pub from : i ≤ r
  pub inside : r < i + n
  pub below : (ws r).time_stamp < limit
  pub least : (j : ℕ) → i ≤ j → j < i + n → (ws r).time_stamp ≤ (ws j).time_stamp
  pub first : (j : ℕ) → i ≤ j → j < r → (ws r).time_stamp < (ws j).time_stamp

-- Where no stamp is below the limit, the result is `best`.
pub record AllYoung (ws : ℕ → Element) (limit i n best r : ℕ) : Type 0 where
  pub same : r ≡ best
  pub young : (j : ℕ) → i ≤ j → j < i + n → limit ≤ (ws j).time_stamp

abbrev pub LruChoice : (ℕ → Element) → ℕ → ℕ → ℕ → ℕ → ℕ → Type 0
LruChoice ws limit i n best r = Oldest ws limit i n r ⊎ AllYoung ws limit i n best r

module _ (ws : ℕ → Element) (i n r : ℕ) where
  Oldest-extend :
      {m limit : ℕ}
      → Oldest ws m (i + 1) n r
      → (ws r).time_stamp < (ws i).time_stamp
      → m ≤ limit
      → Oldest ws limit i (suc n) r
  Oldest-extend o lt le = record {
    from = omega (arith, o.from);
    inside = omega (arith, o.inside);
    below = omega (arith, o.below);
    least =
        from_next (λ j. j < i + suc n → (ws r).time_stamp ≤ (ws j).time_stamp) i (λ _. omega arith)
          (λ j ge jn. o.least j ge (omega arith));
    first =
        from_next (λ j. j < r → (ws r).time_stamp < (ws j).time_stamp) i (λ _. lt)
          (λ j ge jr. o.first j ge jr);
  }

  Oldest-here :
      {limit : ℕ}
      → AllYoung ws (ws i).time_stamp (i + 1) n i r
      → (ws i).time_stamp < limit
      → Oldest ws limit i (suc n) r
  Oldest-here y lt = rw y.same record {
    from = omega arith;
    inside = omega arith;
    below = lt;
    least =
        from_next (λ j. j < i + suc n → (ws i).time_stamp ≤ (ws j).time_stamp) i (λ _. omega arith)
          (λ j ge jn. y.young j ge (omega arith));
    first = λ j ge jr. absurd (omega arith);
  }

  AllYoung-extend :
      {limit best : ℕ}
      → AllYoung ws limit (i + 1) n best r
      → limit ≤ (ws i).time_stamp
      → AllYoung ws limit i (suc n) best r
  AllYoung-extend y le = record {
    same = y.same;
    young = from_next (λ j. j < i + suc n → _) i (λ _. le) (λ j ge jn. y.young j ge (omega arith));
  }

-- The loop of LRU ends with the first page of the least time stamp below the limit it begins with,
-- and with the index it begins with where no stamp is below the limit.
pub lru_scan_lem :
    (n i best limit : ℕ) (ws : ℕ → Element)
    → LruChoice ws limit i n best (lru_scan n i best limit ws)
unfolding lru_scan
lru_scan_lem zero i best limit ws =
    inr (record { same = refl; young = λ j le lt. absurd (omega arith) })
lru_scan_lem (suc n) i best limit ws = elim (Bool-cases (ltb (ws i).time_stamp limit)) [
  | inl earlier ↦ rw earlier elim (lru_scan_lem n (i + 1) i (ws i).time_stamp ws) [
    | inl o ↦ inl (Oldest-extend ws i n _ o o.below (ground (arith, earlier)))
    | inr y ↦ inl (Oldest-here ws i n _ y (ltb→lt _ _ earlier))
  ]
  | inr later ↦
      let le : limit ≤ (ws i).time_stamp = ground (arith, later) in
      rw later elim (lru_scan_lem n (i + 1) best limit ws) [
        | inl o ↦ inl (Oldest-extend ws i n _ o (omega (arith, o.below)) (omega arith))
        | inr y ↦ inr (AllYoung-extend ws i n _ y le)
      ]
]
