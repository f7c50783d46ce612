-- ===== src/PageFault/Handler.antt =====
-- page_fault_handler of kern/trap.c: what it leaves in the working set, and whom it evicts.
use os_memory_management.Base.{
  ℕ, zero, suc, ◌+◌, ◌%◌, ◌≤◌, ◌<◌, ◌≡◌, ◌≢◌, refl, ap, ◌∙◌, inl, inr, arith, Bool, true, false,
  ◌==◌, Bool-cases, leb, lt→ltb, some, List, [], ◌∷◌, ◌++◌, update, update_self, update-ne, ok,
  Returns, returns,
}
use os_memory_management.Mmu.{page_size, user_top, is_modified, round_down}
use os_memory_management.WorkingSet.{
  Element, Env, entered, cleared, page_get_size, page_get_va, page_clear_entry, page_set_entry,
}
use os_memory_management.PageFault.{
  Algorithm, lru, clock, fifo, modified_clock, ReadStatus, read_ok, not_in_page_file, disk_error,
  Action, write_back, unmap, map_new, read_page, add_empty_page, State, ustack_top, ustack_bottom,
  user_entry, bring_in, evict, choose, page_fault_handler, find_empty,
}
use os_memory_management.Base.Circle.{hand_bound}
use os_memory_management.PageFault.Lru.{LruChoice, lru_scan_lem}
use os_memory_management.PageFault.Clock.{
  page_of, PagesDiffer, SecondChance, clock_scan-SecondChance,
}
use os_memory_management.PageFault.Slot.{FirstEmpty, count_used-empty, find_empty-FirstEmpty}

-- The page is in the page file, or on the stack.
abbrev pub Exists : ReadStatus → ℕ → Type 0
Exists read_ok va = Unit
Exists not_in_page_file va = (va < ustack_top) × (ustack_bottom ≤ va)
Exists disk_error va = ⊥

-- The requests that bring the page in.
abbrev pub requests : ReadStatus → ℕ → List Action
requests not_in_page_file va = map_new va ∷ read_page va ∷ add_empty_page va ∷ []
requests _ va = map_new va ∷ read_page va ∷ []

-- The page at `va` is entered at index `i`: the elements but for `i` are those of `s`, and the page's
-- entry is that of the frame at `pa`.
pub record Entered (s : State) (pa : ℕ) (va i : ℕ) (s' : State) : Type 0 where
  pub index : i < s.env.page_max
  pub size : s'.env.page_max ≡ s.env.page_max
  pub element : s'.env.pages i ≡ entered (round_down va page_size)
  pub others : (j : ℕ) → i ≢ j → s'.env.pages j ≡ s.env.pages j
  pub next : s'.env.page_last ≡ (i + 1) % s.env.page_max
  pub entry : s'.pte (round_down va page_size) ≡ user_entry pa
  pub entries : (a : ℕ) → round_down va page_size ≢ a → s'.pte a ≡ s.pte a

append_two : (xs ys : List Action) (a : Action) → (xs ++ ys) ++ a ∷ [] ≡ xs ++ (ys ++ a ∷ [])
append_two [] ys a = refl
append_two (x ∷ xs) ys a = ap (λ l. x ∷ l) (append_two xs ys a)

append_three :
    (xs : List Action) (a b c : Action)
    → ((xs ++ a ∷ []) ++ b ∷ []) ++ c ∷ [] ≡ xs ++ a ∷ b ∷ c ∷ []
append_three [] a b c = refl
append_three (x ∷ xs) a b c = ap (λ l. x ∷ l) (append_three xs a b c)

-- The state with the page at index `i`.
abbrev brought : ℕ → ℕ → ℕ → State → List Action → State
brought pa va i s l = record {
  env = record s.env {
    pages = update s.env.pages i (entered (round_down va page_size));
    page_last = (i + 1) % s.env.page_max;
  };
  pte = update s.pte (round_down va page_size) (user_entry pa);
  actions = l;
}

brought-Entered :
    (pa va i : ℕ) (s : State) (l : List Action)
    → i < s.env.page_max
    → Entered s pa va i (brought pa va i s l)
brought-Entered pa va i s l lt = record {
  index = lt;
  size = refl;
  element = update_self s.env.pages i _;
  others = λ j ne. update-ne s.env.pages i j _ ne;
  next = refl;
  entry = update_self s.pte _ _;
  entries = λ a ne. update-ne s.pte _ a _ ne;
}

module _ (pa va : ℕ) (user : va < user_top) where
  bring_in-Entered :
      (status : ReadStatus) (i : ℕ) (s : State)
      → Exists status va
      → i < s.env.page_max
      → Returns
          (λ s'. Entered s pa va i s' × (s'.actions ≡ s.actions ++ requests status va))
          (bring_in (some pa) status i va s)
  unfolding bring_in page_set_entry
  bring_in-Entered read_ok i s exists lt =
      rw (lt→ltb _ _ lt, lt→ltb _ _ user)
        (returns _ refl (brought-Entered pa va i s _ lt, append_two s.actions (map_new va ∷ []) _))
  bring_in-Entered not_in_page_file i s exists lt =
      let high : leb ustack_bottom va ≡ true = ground (arith, exists.1) in
      rw (lt→ltb _ _ exists.0, high, lt→ltb _ _ lt, lt→ltb _ _ user)
        (returns _ refl (brought-Entered pa va i s _ lt, append_three s.actions _ _ _))
  bring_in-Entered disk_error i s exists lt = absurd exists

  -- Where the working set has room, the page fault handler returns with the page at the first
  -- empty index in circular order, and all other elements unchanged. The address is below
  -- USER_TOP, its page is in the page file or on the stack, a frame is free, and
  -- page_last_WS_index is within the working set.
  pub page_fault_handler-room :
      (algorithm : Algorithm) (status : ReadStatus) (s : State)
      → Exists status va
      → s.env.page_last < s.env.page_max
      → page_get_size s.env < s.env.page_max
      → Returns
          (λ s'.
            (i : ℕ) × FirstEmpty s.env s.env.page_last i
            × Entered s pa va i s'
            × (s'.actions ≡ s.actions ++ requests status va))
          (page_fault_handler algorithm (some pa) status va s)
  unfolding page_fault_handler page_get_size
  page_fault_handler-room algorithm status s exists lt room =
      let (p, pm, vacant) = count_used-empty s.env.page_max s.env.pages room in
      let less : leb s.env.page_max (page_get_size s.env) ≡ false = ground (arith, room) in
      rw less elim (find_empty-FirstEmpty s.env s.env.page_last lt p pm vacant) [
        | returns i e first ↦ rw e elim (bring_in-Entered status i s exists first.inside) [
          | returns s' e' (v, a) ↦ returns s' e' (i, first, v, a)
        ]
      ]

-- Whom an algorithm chooses in a full working set, and the entries after the choice.
abbrev pub Choice : Algorithm → State → ℕ × (ℕ → ℕ) → Type 0
Choice lru s (i, pte) =
    LruChoice s.env.pages 1000000000 0 s.env.page_max s.env.page_last i × (pte ≡ s.pte)
Choice clock s r = SecondChance s.env s.pte r
Choice _ s (i, pte) = (i ≡ s.env.page_last) × (pte ≡ s.pte)

LruChoice-bound :
    (ws : ℕ → Element) (limit n best r : ℕ) → best < n → LruChoice ws limit 0 n best r → r < n
LruChoice-bound ws limit n best r lt (inl o) = omega (arith, o.inside)
LruChoice-bound ws limit n best r lt (inr y) = omega (arith, y.same)

SecondChance-bound :
    (e : Env) (pte : ℕ → ℕ) (r : ℕ × (ℕ → ℕ))
    → e.page_last < e.page_max
    → SecondChance e pte r
    → r.0 < e.page_max
SecondChance-bound e pte r lt c = rw c.at (hand_bound e.page_max e.page_last c.steps lt c.bound)

choose-Choice :
    (algorithm : Algorithm) (s : State)
    → s.env.page_last < s.env.page_max
    → PagesDiffer s.env
    → Returns (λ r. (r.0 < s.env.page_max) × Choice algorithm s r) (choose algorithm s)
unfolding choose
choose-Choice lru s lt differ =
    let c = lru_scan_lem s.env.page_max 0 s.env.page_last 1000000000 s.env.pages in
    returns _ refl (LruChoice-bound s.env.pages _ _ _ _ lt c, (c, refl))
choose-Choice clock s lt differ = elim (clock_scan-SecondChance s.env s.pte lt differ) [
  | returns r e c ↦ returns r e (SecondChance-bound s.env s.pte r lt c, c)
]
choose-Choice fifo s lt differ = returns _ refl (lt, (refl, refl))
choose-Choice modified_clock s lt differ = returns _ refl (lt, (refl, refl))

-- The requests that remove the page at `v`.
abbrev pub removal : Bool → ℕ → List Action
removal true v = write_back v ∷ unmap v ∷ []
removal false v = unmap v ∷ []

abbrev evicted : ℕ → State → List Action → State
evicted i s l = record {
  env = record s.env { pages = update s.env.pages i cleared };
  pte = update s.pte (page_of s.env i) 0;
  actions = l;
}

abbrev pub removed : ℕ → State → List Action
removed i s = s.actions ++ removal (is_modified (s.pte (page_of s.env i))) (page_of s.env i)

evict_lem : (i : ℕ) (s : State) → i < s.env.page_max → evict i s ≡ ok (evicted i s (removed i s))
unfolding evict page_get_va page_clear_entry
evict_lem i s lt = elim (Bool-cases (is_modified (s.pte (page_of s.env i)))) [
  | inl dirty ↦
      rw (lt→ltb _ _ lt, dirty)
        (ap (λ l. ok (evicted i s l)) (append_two s.actions (write_back (page_of s.env i) ∷ []) _))
  | inr clean ↦ rw (lt→ltb _ _ lt, clean) refl
]

find_empty-here :
    (fuel i : ℕ) (e : Env)
    → 0 < fuel
    → ((e.pages i).empty == 0) ≡ false
    → find_empty fuel i e ≡ ok i
unfolding find_empty
find_empty-here zero i e pos vacant = absurd (omega arith)
find_empty-here (suc fuel) i e pos vacant = rw vacant refl

-- The page at index `i` is replaced: the entries before are `pte`, those that the choice leaves.
pub record Replaced (s : State) (pte : ℕ → ℕ) (pa va i : ℕ) (s' : State) : Type 0 where
  pub index : i < s.env.page_max
  pub size : s'.env.page_max ≡ s.env.page_max
  pub element : s'.env.pages i ≡ entered (round_down va page_size)
  pub others : (j : ℕ) → i ≢ j → s'.env.pages j ≡ s.env.pages j
  pub next : s'.env.page_last ≡ (i + 1) % s.env.page_max
  pub entry : s'.pte (round_down va page_size) ≡ user_entry pa
  pub gone : round_down va page_size ≢ page_of s.env i → s'.pte (page_of s.env i) ≡ 0
  pub entries : (a : ℕ) → round_down va page_size ≢ a → page_of s.env i ≢ a → s'.pte a ≡ pte a

module _ (pa va : ℕ) (user : va < user_top) where
  Entered-Replaced :
      (s s' : State) (pte : ℕ → ℕ) (i : ℕ) (l : List Action)
      → Entered (evicted i (record s { pte = pte }) l) pa va i s'
      → Replaced s pte pa va i s'
  Entered-Replaced s s' pte i l v = record {
    index = v.index;
    size = v.size;
    element = v.element;
    others = λ j ne. v.others j ne ∙ update-ne s.env.pages i j _ ne;
    next = v.next;
    entry = v.entry;
    gone = λ ne. v.entries (page_of s.env i) ne ∙ update_self pte (page_of s.env i) 0;
    entries = λ a ne old. v.entries a ne ∙ update-ne pte (page_of s.env i) a 0 old;
  }

  -- Where the working set is full, the page fault handler returns with the page in the place of
  -- the one that the algorithm chooses: the first of the least time stamp below 10^9 for LRU
  -- (the one at page_last_WS_index where there is none), the first that CLOCK does not give a
  -- second chance, and the one at page_last_WS_index for FIFO. Modified CLOCK, for which the
  -- handler has no branch, replaces the same page as FIFO. The page replaced is unmapped, and
  -- written back before that where it is modified; all other elements are unchanged. The address is below USER_TOP, its page
  -- is in the page file or on the stack, a frame is free, page_last_WS_index is within the
  -- working set, and no two elements hold the same page.
  pub page_fault_handler-full :
      (algorithm : Algorithm) (status : ReadStatus) (s : State)
      → Exists status va
      → s.env.page_last < s.env.page_max
      → PagesDiffer s.env
      → s.env.page_max ≤ page_get_size s.env
      → Returns
          (λ s'.
            (r : ℕ × (ℕ → ℕ)) × Choice algorithm s r
            × Replaced s r.1 pa va r.0 s'
            × (s'.actions ≡ removed r.0 (record s { pte = r.1 }) ++ requests status va))
          (page_fault_handler algorithm (some pa) status va s)
  unfolding page_fault_handler page_get_size
  page_fault_handler-full algorithm status s exists lt differ full =
      let more : leb s.env.page_max (page_get_size s.env) ≡ true = ground (arith, full) in
      rw more elim (choose-Choice algorithm s lt differ) [
        | returns (i, pte) e (im, choice) ↦
            let s1 = record s { pte = pte } in
            let s2 = evicted i s1 (removed i s1) in
            let vacant : ((s2.env.pages i).empty == 0) ≡ false =
              ap (λ x. x.empty == 0) (update_self s.env.pages i cleared) in
            rw
              (
                e,
                evict_lem i s1 im,
                find_empty-here (s.env.page_max + 1) i s2.env (omega arith) vacant,
              )
              elim (bring_in-Entered pa va user status i s2 exists im) [
                | returns s' e' (v, a) ↦
                    returns s' e' ((i, pte), choice, Entered-Replaced s s' pte i _ v, a)
              ]
      ]
