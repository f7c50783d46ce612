-- ===== src/UserHeap/Valid.antt =====
-- When the tracker of lib/uheap.c describes allocations that do not overlap.
use mathlib.Core.Path.{subst}
use native.Mathlib.Decide.{dec_lt}
use os_memory_management.Base.{
  ℕ, ◌+◌, ◌*◌, ◌≤◌, ◌<◌, ◌≡◌, ◌≢◌, inl, inr, ap, lt_cases, true, false, refl, Bool-cases, arith,
}
use os_memory_management.Mmu.{page_size, user_heap_start, user_heap_pages}
use os_memory_management.UserHeap.{Scan, grow, skip}

-- No allocation covers page `q`.
abbrev pub IsFree : (ℕ → ℕ) → ℕ → Type 0
IsFree t q = (p : ℕ) → p ≤ q → p + t p ≤ q

-- The `n` pages from `s` on lie in the heap and are free.
pub record FreeRange (t : ℕ → ℕ) (s n : ℕ) : Type 0 where
  pub inside : s + n ≤ user_heap_pages
  pub free : (q : ℕ) → s ≤ q → q < s + n → IsFree t q

-- No allocation that starts before page `b` goes on at it.
abbrev pub IsBoundary : (ℕ → ℕ) → ℕ → Type 0
IsBoundary t b = (p : ℕ) → p < b → p + t p ≤ b

-- Allocations lie in the heap and hold no other allocation's first page.
pub record IsTracker (t : ℕ → ℕ) : Type 0 where
  pub inside : (p : ℕ) → p < user_heap_pages → p + t p ≤ user_heap_pages
  pub outside : (p : ℕ) → user_heap_pages ≤ p → t p ≡ 0
  pub apart : (p q : ℕ) → p < q → q < p + t p → t q ≡ 0

IsBoundary-free : (t : ℕ → ℕ) (b : ℕ) → IsBoundary t b → t b ≡ 0 → IsFree t b
IsBoundary-free t b h e p le = grind (arith, h)

IsBoundary-next : (t : ℕ → ℕ) (b : ℕ) → IsBoundary t b → t b ≡ 0 → IsBoundary t (b + 1)
IsBoundary-next t b h e p lt = elim (lt_cases p b) [
  | inl (inl below) ↦ omega (arith, h p below)
  | inl (inr same) ↦ omega (arith, ap t same)
  | inr above ↦ absurd (omega arith)
]

IsBoundary-skip : (t : ℕ → ℕ) (b : ℕ) → IsTracker t → IsBoundary t b → IsBoundary t (b + t b)
IsBoundary-skip t b v h p lt = elim (lt_cases p b) [
  | inl (inl below) ↦ omega (arith, h p below)
  | inl (inr same) ↦ omega (arith, ap t same)
  | inr above ↦ omega (arith, v.apart b p above lt)
]

-- No `n` free pages start before page `r`.
abbrev pub NoneBefore : (ℕ → ℕ) → ℕ → ℕ → Type 0
NoneBefore t n r = (a : ℕ) → a < r → ¬ FreeRange t a n

-- Nor between pages `g` and `r`.
abbrev pub NoneFrom : (ℕ → ℕ) → ℕ → ℕ → ℕ → Type 0
NoneFrom t n g r = (a : ℕ) → g ≤ a → a < r → ¬ FreeRange t a n

-- Nor do any start before the end of an allocation that fewer than `n` free pages precede.
pub NoneFrom-skip :
    (t : ℕ → ℕ) (n g r c : ℕ)
    → 0 < n
    → t c ≢ 0
    → c < r + n
    → NoneFrom t n g r
    → NoneFrom t n g (c + t c)
NoneFrom-skip t n g r c pos used short before a from lt range = elim (dec_lt a r) [
  | yes below ↦ before a from below range
  | no above ↦ elim (dec_lt c a) [
    | yes past ↦ omega (arith, range.free a (omega arith) (omega arith) c (omega arith))
    | no upto ↦ omega (arith, range.free c (omega arith) (omega arith) c (omega arith))
  ]
]

pub NoneBefore-skip :
    (t : ℕ → ℕ) (n r c : ℕ)
    → 0 < n
    → t c ≢ 0
    → c < r + n
    → NoneBefore t n r
    → NoneBefore t n (c + t c)
NoneBefore-skip t n r c pos used short before a =
    NoneFrom-skip t n 0 r c pos used short (λ b from. before b) a (omega arith)

-- Addresses of pages.
abbrev pub page_addr : ℕ → ℕ
page_addr p = user_heap_start + page_size * p

-- The search stands at page `c`, and the run of free pages that it counts starts at page `r`.
pub record AtPage (t : ℕ → ℕ) (s : Scan) (c r : ℕ) : Type 0 where
  pub i_is : s.i ≡ page_addr c
  pub inside : c ≤ user_heap_pages
  pub run : r ≤ c
  pub current_is : s.current + page_size * r ≡ page_size * c
  pub j_is : s.flag ≡ true → s.j ≡ page_addr r
  pub no_run : s.flag ≡ false → r ≡ c
  pub boundary : IsBoundary t c
  pub free : (q : ℕ) → r ≤ q → q < c → IsFree t q

-- A run that is long enough is a range of free pages, and j is its address.
pub AtPage-FreeRange :
    (t : ℕ → ℕ) (s : Scan) (c r n : ℕ)
    → AtPage t s c r
    → 0 < n
    → page_size * n ≤ s.current
    → (s.j ≡ page_addr r) × FreeRange t r n
AtPage-FreeRange t s c r n v pos enough = (
  elim (Bool-cases s.flag) [ inl e ↦ v.j_is e | inr e ↦ absurd (omega (arith, v.no_run e)) ],
  record { inside = omega arith; free = λ q lo hi. v.free q lo (omega arith) },
)

pub grow-AtPage :
    (t : ℕ → ℕ) (s : Scan) (c r : ℕ)
    → c < user_heap_pages
    → t c ≡ 0
    → AtPage t s c r
    → AtPage t (grow s) (c + 1) r
unfolding grow
grow-AtPage t s c r lt zero v = record {
  i_is = omega arith;
  inside = omega arith;
  run = omega arith;
  current_is = omega arith;
  j_is = ground (arith, v.j_is, v.no_run);
  no_run = λ e. cc;
  boundary = IsBoundary-next t c v.boundary zero;
  free = λ q lo hi. elim (dec_lt q c) [
    | yes below ↦ v.free q lo below
    | no same ↦ subst (IsFree t) {x = c} {y = q} (omega arith) (IsBoundary-free t c v.boundary zero)
  ];
}

pub skip-AtPage :
    (t : ℕ → ℕ) (s : Scan) (c r : ℕ)
    → IsTracker t
    → c < user_heap_pages
    → AtPage t s c r
    → AtPage t (skip (t c) s) (c + t c) (c + t c)
unfolding skip
skip-AtPage t s c r w lt v = record {
  i_is = omega (arith, w.inside c lt);
  inside = w.inside c lt;
  run = omega arith;
  current_is = omega arith;
  j_is = λ e. cc;
  no_run = λ e. refl;
  boundary = IsBoundary-skip t c w v.boundary;
  free = λ q lo hi. absurd (omega arith);
}

pub left-AtPage :
    (t : ℕ → ℕ) (s : Scan) (c r k : ℕ) → AtPage t s c r → AtPage t (record s { left = k }) c r
left-AtPage t s c r k v = record {
  i_is = v.i_is;
  inside = v.inside;
  run = v.run;
  current_is = v.current_is;
  j_is = v.j_is;
  no_run = v.no_run;
  boundary = v.boundary;
  free = v.free;
}
