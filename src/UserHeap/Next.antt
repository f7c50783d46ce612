-- ===== src/UserHeap/Next.antt =====
-- The loop of NEXT FIT ends, and finds free pages unless all that there are lie around its start.
use mathlib.Core.Path.{subst}
use native.Mathlib.Decide.{dec_lt}
use os_memory_management.Base.{
  ℕ, zero, suc, ◌+◌, ◌*◌, ◌≤◌, ◌<◌, ◌≡◌, ◌≢◌, refl, inl, inr, arith, true, false, Option, none,
  some, Bool-cases, leb, ◌==◌, Returns, returns,
}
use os_memory_management.Mmu.{page_size, user_heap_max, user_heap_pages, sub32}
use os_memory_management.UserHeap.{Scan, grow, skip, take_run, last_run, next_loop, wrap}
use os_memory_management.UserHeap.Search.{read_tracker-ok}
use os_memory_management.UserHeap.Valid.{
  FreeRange, IsBoundary, IsTracker, NoneBefore, NoneFrom, NoneFrom-skip, NoneBefore-skip, page_addr,
  AtPage, AtPage-FreeRange, left-AtPage, grow-AtPage, skip-AtPage,
}

-- The first pass counts the pages from `g` on, the second those in front of `g`.
pub data Phase (t : ℕ → ℕ) (n g : ℕ) (s : Scan) (c r : ℕ) : Type 0 where
  first_pass : g ≤ r → s.left + c ≡ user_heap_pages + g → NoneFrom t n g r → Phase t n g s c r
  second_pass :
      c ≤ g → s.left + c ≡ g → NoneFrom t n g user_heap_pages → NoneBefore t n r → Phase t n g s c r

pub record Stands (t : ℕ → ℕ) (n g : ℕ) (s : Scan) (c r : ℕ) : Type 0 where
  pub at : AtPage t s c r
  pub fresh : s.found ≡ false
  pub phase : Phase t n g s c r

-- What NEXT FIT promises that starts at page `g`: `n` free pages, or none where the only ones that
-- there are lie on both sides of `g`.
abbrev pub NextFit : (ℕ → ℕ) → ℕ → ℕ → Option ℕ → Type 0
NextFit t n g none = (a : ℕ) → FreeRange t a n → (a < g) × (g < a + n)
NextFit t n g (some a) = (b : ℕ) × (a ≡ page_addr b) × FreeRange t b n

module _ (t : ℕ → ℕ) (n g : ℕ) (w : IsTracker t) (pos : 0 < n) (small : n ≤ user_heap_pages)
    (start : IsBoundary t g) (in_range : g < user_heap_pages) where
  wrap-low : (s : Scan) (c r : ℕ) → c < user_heap_pages → AtPage t s c r → wrap s ≡ s
  unfolding wrap
  wrap-low s c r lt v = let e : leb user_heap_max s.i ≡ false = ground (arith, v.i_is) in rw e

  wrap-high :
      (s : Scan) (r : ℕ)
      → Stands t n g s user_heap_pages r
      → s.current < page_size * n
      → Stands t n g (wrap s) 0 0
  unfolding wrap
  wrap-high s r v short =
      let e : leb user_heap_max s.i ≡ true = ground (arith, v.at.i_is) in
      rw e (record {
        at = record {
          i_is = refl;
          inside = omega arith;
          run = omega arith;
          current_is = refl;
          j_is = λ k. cc;
          no_run = λ k. refl;
          boundary = λ p lt. absurd (omega arith);
          free = λ q lo hi. absurd (omega arith);
        };
        fresh = v.fresh;
        phase = elim v.phase [
          | first_pass from count before ↦
              second_pass (omega arith) (omega arith)
                (λ a lo hi range. elim (dec_lt a r) [
                  | yes below ↦ before a lo below range
                  | no above ↦ omega (arith, v.at.current_is, range.inside)
                ])
                (λ a lt. absurd (omega arith))
          | second_pass le count after before ↦ absurd (omega arith)
        ];
      })

  grow-Stands :
      (s : Scan) (c r : ℕ)
      → c < user_heap_pages
      → s.left ≢ 0
      → t c ≡ 0
      → Stands t n g s c r
      → Stands t n g (record (grow s) { left = sub32 s.left 1 }) (c + 1) r
  unfolding grow
  grow-Stands s c r lt more free v = record {
    at = left-AtPage t (grow s) (c + 1) r (sub32 s.left 1) (grow-AtPage t s c r lt free v.at);
    fresh = v.fresh;
    phase = elim v.phase [
      | first_pass from count before ↦ first_pass from (omega arith) before
      | second_pass le count after before ↦ second_pass (omega arith) (omega arith) after before
    ];
  }

  skip-Stands :
      (s : Scan) (c r : ℕ)
      → c < user_heap_pages
      → s.left ≢ 0
      → t c ≢ 0
      → s.current < page_size * n
      → Stands t n g s c r
      → Stands t n g (record (skip (t c) s) { left = sub32 s.left (t c) }) (c + t c) (c + t c)
  unfolding skip
  skip-Stands s c r lt more used short v =
      let fits = w.inside c lt in
      record {
        at =
            left-AtPage t (skip (t c) s) (c + t c) (c + t c) (sub32 s.left (t c))
              (skip-AtPage t s c r w lt v.at);
        fresh = v.fresh;
        phase = elim v.phase [
          | first_pass from count before ↦
              first_pass (omega (arith, v.at.run)) (omega arith)
                (NoneFrom-skip t n g r c pos used (omega (arith, v.at.current_is)) before)
          | second_pass le count after before ↦
              let ends = start c (omega arith) in
              second_pass (omega arith) (omega arith) after
                (NoneBefore-skip t n r c pos used (omega (arith, v.at.current_is)) before)
        ];
      }

  -- The state at the head of the next iteration.
  wrap-Stands :
      (s : Scan) (c r : ℕ)
      → Stands t n g s c r
      → s.current < page_size * n
      → (c' : ℕ) × (r' : ℕ) × Stands t n g (wrap s) c' r' × (c' < user_heap_pages)
  wrap-Stands s c r v short = elim (dec_lt c user_heap_pages) [
    | yes lt ↦ (c, r, rw (wrap-low s c r lt v.at) v, lt)
    | no end ↦
        let e : c ≡ user_heap_pages = omega (arith, v.at.inside) in
        (0, 0, wrap-high s r (subst (λ k. Stands t n g s k r) e v) short, omega arith)
  ]

  wrap-left : (s : Scan) → (wrap s).left ≡ s.left
  unfolding wrap
  wrap-left s = ground arith

  taken :
      (s : Scan) (c r : ℕ)
      → AtPage t s c r
      → page_size * n ≤ s.current
      → NextFit t n g (last_run (page_size * n) (take_run s))
  unfolding last_run take_run
  taken s c r v long = let (e, range) = AtPage-FreeRange t s c r n v pos long in (r, e, range)

  exhausted :
      (s : Scan) (c r : ℕ)
      → c < user_heap_pages
      → s.left ≡ 0
      → Stands t n g s c r
      → NextFit t n g (last_run (page_size * n) s)
  unfolding last_run
  exhausted s c r lt done v = elim (Bool-cases (leb (page_size * n) s.current)) [
    | inl long ↦
        let (e, range) = AtPage-FreeRange t s c r n v.at pos (ground arith) in
        rw (v.fresh, long) (r, e, range)
    | inr short ↦
        rw (v.fresh, short)
          λ a range. elim v.phase [
            | first_pass from count before ↦ absurd (omega arith)
            | second_pass le count after before ↦ elim (dec_lt a g) [
              | no high ↦ absurd (after a (omega arith) (omega (arith, range.inside)) range)
              | yes low ↦ elim (dec_lt a r) [
                | yes below ↦ absurd (before a below range)
                | no above ↦ (low, ground (arith, v.at.current_is))
              ]
            ]
          ]
  ]

  positive : leb (page_size * n) 0 ≡ false
  positive = ground arith

  left_falls : (s : Scan) (fuel : ℕ) → s.left < fuel → (wrap s).left < fuel
  left_falls s fuel lt = rw (wrap-left s) lt

  -- The pages left never exceed the heap's.
  left-le :
      (s : Scan) (c r : ℕ)
      → c < user_heap_pages
      → Stands t n g s c r
      → (c + s.left ≤ user_heap_pages + g)
  left-le s c r lt v = elim v.phase [
    | first_pass from count before ↦ omega arith
    | second_pass le count after before ↦ omega arith
  ]

  -- So the subtraction of an allocation's pages from those left does not wrap.
  tracker-le-left :
      (s : Scan) (c r : ℕ) → c < user_heap_pages → s.left ≢ 0 → Stands t n g s c r → t c ≤ s.left
  tracker-le-left s c r lt more v = elim v.phase [
    | first_pass from count before ↦ omega (arith, w.inside c lt, v.at.run)
    | second_pass le count after before ↦ omega (arith, start c (omega arith))
  ]

  pub next_loop-NextFit :
      (fuel : ℕ) (s : Scan) (c r : ℕ)
      → c < user_heap_pages
      → s.left < fuel
      → Stands t n g s c r
      → Returns
          (λ s'. NextFit t n g (last_run (page_size * n) s'))
          (next_loop fuel t (page_size * n) s)
  unfolding next_loop
  next_loop-NextFit zero s c r lt enough v = absurd (omega arith)
  next_loop-NextFit (suc fuel) s c r lt enough v = elim (Bool-cases (s.left == 0)) [
    | inl done ↦ rw done (returns s refl (exhausted s c r lt (ground arith) v))
    | inr more ↦ elim (Bool-cases (t c == 0)) [
      | inl free ↦
          let s1 : Scan = record (grow s) { left = sub32 s.left 1 } in
          let st = grow-Stands s c r lt (ground arith) (ground arith) v in
          elim (Bool-cases (leb (page_size * n) s1.current)) [
            | inl long ↦
                rw (more, read_tracker-ok t s c r lt v.at, free, long)
                  (returns (take_run s1) refl (taken s1 (c + 1) r st.at (ground arith)))
            | inr short ↦
                let (c', r', st', lt') = wrap-Stands s1 (c + 1) r st (ground arith) in
                rw (more, read_tracker-ok t s c r lt v.at, free, short)
                  (next_loop-NextFit fuel (wrap s1) c' r' lt'
                    (left_falls s1 fuel (ground (arith, left-le s c r lt v))) st')
          ]
      | inr used ↦ elim (Bool-cases (leb (page_size * n) s.current)) [
        | inl long ↦
            rw (more, read_tracker-ok t s c r lt v.at, used, long)
              (returns (take_run s) refl (taken s c r v.at (ground arith)))
        | inr short ↦
            let s1 : Scan = record (skip (t c) s) { left = sub32 s.left (t c) } in
            let st = skip-Stands s c r lt (ground arith) (ground arith) (ground arith) v in
            let (c', r', st', lt') = wrap-Stands s1 (c + t c) (c + t c) st (omega arith) in
            rw (more, read_tracker-ok t s c r lt v.at, used, short, positive)
              (next_loop-NextFit fuel (wrap s1) c' r' lt'
                (left_falls s1 fuel
                  (ground (arith, left-le s c r lt v, tracker-le-left s c r lt (ground arith) v)))
                st')
      ]
    ]
  ]
