-- ===== src/UserHeap/Fit.antt =====
-- The loops of BEST FIT and WORST FIT end, and find free pages where there are any.
use native.Mathlib.Decide.{dec_lt}
use os_memory_management.Base.{
  ℕ, zero, suc, ◌+◌, ◌*◌, ◌<◌, ◌≡◌, ◌≢◌, refl, inl, inr, arith, Bool, true, false, ◌&&◌, Bool-cases,
  leb, ◌==◌, if◌then◌else◌, Returns, returns,
}
use os_memory_management.Mmu.{page_size, user_heap_pages}
use os_memory_management.UserHeap.{Scan, grow, skip, take_run, last_run, fit_loop}
use os_memory_management.UserHeap.Search.{read_tracker-ok, in_heap, past_heap, Fit}
use os_memory_management.UserHeap.Valid.{
  FreeRange, IsTracker, NoneBefore, NoneBefore-skip, page_addr, AtPage, AtPage-FreeRange,
  grow-AtPage, skip-AtPage,
}

-- What BEST FIT and WORST FIT keep, `v0` being the bound they start with.
pub record Sound (t : ℕ → ℕ) (n v0 : ℕ) (s : Scan) (r : ℕ) : Type 0 where
  pub none_yet : s.found ≡ false → NoneBefore t n r
  pub initial : s.found ≡ false → s.viable ≡ v0
  pub kept : s.found ≡ true → (b : ℕ) × (s.general ≡ page_addr b) × FreeRange t b n

-- A first run that ends before the heap does is better than the bound at the start.
abbrev pub Accepts : (ℕ → ℕ → Bool) → ℕ → Type 0
Accepts better v0 = (c : ℕ) → 0 < c → c < page_size * user_heap_pages → better v0 c ≡ true

module _ (t : ℕ → ℕ) (n v0 : ℕ) (better : ℕ → ℕ → Bool) (w : IsTracker t) (pos : 0 < n)
    (accepts : Accepts better v0) where
  last_run-Fit :
      (s : Scan) (c r : ℕ)
      → c ≡ user_heap_pages
      → AtPage t s c r
      → Sound t n v0 s r
      → Fit t n (last_run (page_size * n) s)
  unfolding last_run
  last_run-Fit s c r end v so = elim (Bool-cases s.found) [
    | inl got ↦ rw got (so.kept got)
    | inr fresh ↦ elim (Bool-cases (leb (page_size * n) s.current)) [
      | inl enough ↦
          let (e, range) = AtPage-FreeRange t s c r n v pos (ground arith) in
          rw (fresh, enough) (r, e, range)
      | inr short ↦
          rw (fresh, short)
            λ a range. elim (dec_lt a r) [
              | yes below ↦ so.none_yet fresh a below range
              | no above ↦ ground (arith, end, v.current_is, range.inside)
            ]
    ]
  ]

  -- The choice at an allocation.
  abbrev chosen : Scan → Scan
  chosen s =
      if leb (page_size * n) s.current && better s.viable s.current
      then record (take_run s) { viable = s.current }
      else s

  chosen-AtPage : (s : Scan) (c r : ℕ) → AtPage t s c r → AtPage t (chosen s) c r
  unfolding take_run
  chosen-AtPage s c r v =
      elim (Bool-cases (leb (page_size * n) s.current && better s.viable s.current)) [
        | inl e ↦ rw e (record {
          i_is = v.i_is;
          inside = v.inside;
          run = v.run;
          current_is = v.current_is;
          j_is = v.j_is;
          no_run = v.no_run;
          boundary = v.boundary;
          free = v.free;
        })
        | inr e ↦ rw e v
      ]

  chosen-Sound :
      (s : Scan) (c r : ℕ)
      → c < user_heap_pages
      → t c ≢ 0
      → AtPage t s c r
      → Sound t n v0 s r
      → Sound t n v0 (skip (t c) (chosen s)) (c + t c)
  unfolding skip take_run
  chosen-Sound s c r lt used v so = elim (Bool-cases (leb (page_size * n) s.current)) [
    | inl long ↦ elim (Bool-cases (better s.viable s.current)) [
      | inl good ↦
          let (e, range) = AtPage-FreeRange t s c r n v pos (ground arith) in
          rw (long, good)
            (record { none_yet = λ k. cc; initial = λ k. cc; kept = λ k. (r, e, range) })
      | inr bad ↦
          rw (long, bad)
            (record {
              none_yet = λ k. cc (so.initial k, accepts s.current (ground arith) (omega arith));
              initial = so.initial;
              kept = so.kept;
            })
    ]
    | inr short ↦ rw short (record {
      none_yet = λ k. NoneBefore-skip t n r c pos used (ground arith) (so.none_yet k);
      initial = so.initial;
      kept = so.kept;
    })
  ]

  pub fit_loop-Fit :
      (fuel : ℕ) (s : Scan) (c r : ℕ)
      → AtPage t s c r
      → Sound t n v0 s r
      → user_heap_pages < c + fuel
      → Returns
          (λ s'. Fit t n (last_run (page_size * n) s'))
          (fit_loop better fuel t (page_size * n) s)
  unfolding fit_loop
  fit_loop-Fit zero s c r v so enough = absurd (omega (arith, v.inside))
  fit_loop-Fit (suc fuel) s c r v so enough = elim (dec_lt c user_heap_pages) [
    | no done ↦
        let (past, end) = past_heap t s c r done v in
        rw past (returns s refl (last_run-Fit s c r end v so))
    | yes lt ↦ elim (Bool-cases (t c == 0)) [
      | inl free ↦
          rw (in_heap t s c r lt v, read_tracker-ok t s c r lt v, free)
            (fit_loop-Fit fuel (grow s) (c + 1) r (grow-AtPage t s c r lt (ground arith) v)
              (record { none_yet = so.none_yet; initial = so.initial; kept = so.kept })
              (omega arith))
      | inr used ↦
          rw (in_heap t s c r lt v, read_tracker-ok t s c r lt v, used)
            (fit_loop-Fit fuel (skip (t c) (chosen s)) (c + t c) (c + t c)
              (skip-AtPage t (chosen s) c r w lt (chosen-AtPage s c r v))
              (chosen-Sound s c r lt (ground arith) v so) (ground arith))
    ]
  ]
