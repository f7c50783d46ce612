-- ===== src/Boot/Mapped.antt =====
-- What boot_map_range of kern/memory_manager.c maps.
use mathlib.Core.Path.{subst}
use os_memory_management.Base.{
  ℕ, zero, suc, ◌+◌, ◌-◌, ◌*◌, ◌/◌, ◌%◌, ◌^◌, ◌≤◌, ◌<◌, ◌≡◌, ◌≢◌, ◌⊎◌, inl, inr, refl, sym, ap, ◌∙◌,
  arith, true, false, Bool-cases, Option, some, ltb, lt→ltb, ◌==◌, ==_iff, update, update-ne,
  update_self, ok, Returns, returns,
}
use os_memory_management.Mmu.{page_size, add32, pdx, ptx, ppn}
use os_memory_management.Boot.{Boot, boot_get_page_table, present_entry, word_of, boot_map_loop}
use os_memory_management.Boot.Tables.{HasTable, IsBoot, Room, Got, existing-Got, get_page_table-Got}

-- The entry of a page, and the word where it is
abbrev pub entry_word : Boot → ℕ → ℕ
entry_word s q = ppn (s.dir (q / 1024)) * 1024 + q % 1024

abbrev pub entry : Boot → ℕ → ℕ
entry s q = s.words (entry_word s q)

-- The tables from `p` on are there, or there is memory for them.
abbrev pub Reserve : ℕ → ℕ → Boot → Type 0
Reserve zero p s = Room 0 s
Reserve (suc n) p s =
    (HasTable s (p / 1024) × Room ((p + n) / 1024 - p / 1024) s)
    ⊎ Room ((p + n) / 1024 - p / 1024 + 1) s

-- What a round of boot_map_range leaves
record Stepped (m p e : ℕ) (s s' : Boot) : Type 0 where
  is_boot : IsBoot s'
  room : Room m s'
  here : HasTable s' (p / 1024) × (entry s' p ≡ e)
  kept : (q : ℕ) → q ≢ p → HasTable s (q / 1024) → HasTable s' (q / 1024) × (entry s' q ≡ entry s q)

-- The state with a word changed
abbrev written : ℕ → ℕ → Boot → Boot
written w e s = record s { words = update s.words w e }

written-table : (w e j : ℕ) (s : Boot) → HasTable s j → HasTable (written w e s) j
written-table w e j s t = record {
  present = t.present;
  some_frame = t.some_frame;
  below_free = t.below_free;
}

unwritten_table : (w e j : ℕ) (s : Boot) → HasTable (written w e s) j → HasTable s j
unwritten_table w e j s t = record {
  present = t.present;
  some_frame = t.some_frame;
  below_free = t.below_free;
}

written-IsBoot : (w e : ℕ) (s : Boot) → IsBoot s → IsBoot (written w e s)
written-IsBoot w e s v = record {
  tables = λ i. elim (v.tables i) [ inl z ↦ inl z | inr t ↦ inr (written-table w e i s t) ];
  apart = λ i j ne ti tj. v.apart i j ne (unwritten_table w e i s ti) (unwritten_table w e j s tj);
  start = v.start;
}

-- Two pages with tables have their entries in different words.
words_apart :
    (p q : ℕ) (s : Boot)
    → IsBoot s
    → q ≢ p
    → HasTable s (p / 1024)
    → HasTable s (q / 1024)
    → entry_word s p ≢ entry_word s q
words_apart p q s v ne tp tq = elim (Bool-cases (p / 1024 == q / 1024)) [
  | inl same ↦
      let e : p / 1024 ≡ q / 1024 = (==_iff (p / 1024) (q / 1024)).0 same in
      λ w. omega (arith, ne, e, w, ap (λ i. ppn (s.dir i)) e)
  | inr other ↦
      let apart = v.apart (p / 1024) (q / 1024) (λ e. ground (arith, other, e)) tp tq in
      λ w. omega (arith, apart, w)
]

Got-Stepped :
    (m p e ptr w : ℕ) (s s1 : Boot)
    → w ≡ entry_word s1 p
    → Got m (p / 1024) s ptr s1
    → Stepped m p e s (written w e s1)
Got-Stepped m p e ptr w s s1 eq g = record {
  is_boot = written-IsBoot w e s1 g.is_boot;
  room = g.room;
  here = (
    written-table w e (p / 1024) s1 g.table,
    ap (update s1.words w e) (sym eq) ∙ update_self s1.words w e,
  );
  kept = λ q ne t.
      let k = g.kept (q / 1024) t in
      (
        written-table w e (q / 1024) s1 k.0,
        update-ne s1.words w (entry_word s1 q) e
              (λ z. words_apart p q s1 g.is_boot ne g.table k.0 (sym eq ∙ z))
            ∙ ap s1.words (ap (λ d. ppn d * 1024 + q % 1024) k.1)
            ∙ ap (λ (f : ℕ → ℕ). f (entry_word s q)) g.words,
      );
}

-- One round: the table is there, or there is memory for it.
round_lem :
    (n p e : ℕ) (s : Boot)
    → p < 2 ^ 20
    → IsBoot s
    → Reserve (suc n) p s
    → Returns
        (λ r.
          (ptr : ℕ) × (r.0 ≡ some ptr)
          × (word_of ptr (ptx (p * 4096)) ≡ entry_word r.1 p)
          × Got ((p + n) / 1024 - p / 1024) (p / 1024) s ptr r.1)
        (boot_get_page_table (p * 4096) true s)
round_lem n p e s small v reserve =
    let m = (p + n) / 1024 - p / 1024 in
    let index : pdx (p * 4096) ≡ p / 1024 = omega (arith, small) in
    let got : Returns (λ r. (ptr : ℕ) × (r.0 ≡ some ptr) × Got m (pdx (p * 4096)) s ptr r.1)
        (boot_get_page_table (p * 4096) true s) =
      elim reserve [
        | inl (t, room) ↦ existing-Got m (p * 4096) s v room (rw index t)
        | inr room ↦ get_page_table-Got m (p * 4096) s v (omega (arith, room.0), room.1)
      ] in
    elim got [
      | returns r q (ptr, q', g) ↦
          let g' : Got m (p / 1024) s ptr r.1 = subst (λ i. Got m i s ptr r.1) index g in
          returns r q (ptr, q', omega (arith, g'.pointer, small), g')
    ]

-- What the rounds from the page `p` on leave, for `n` pages and the physical addresses from `a` on
pub record Ranged (n p a perm : ℕ) (s s' : Boot) : Type 0 where
  pub is_boot : IsBoot s'
  pub room : Room 0 s'
  pub mapped :
      (k : ℕ)
      → k < n
      → HasTable s' ((p + k) / 1024) × (entry s' (p + k) ≡ present_entry (a + k * 4096) perm)
  pub kept :
      (q : ℕ)
      → (q < p) ⊎ (p + n ≤ q)
      → HasTable s (q / 1024)
      → HasTable s' (q / 1024) × (entry s' q ≡ entry s q)

-- The memory that is left is enough for the other rounds.
Reserve-next :
    (n p : ℕ) (s : Boot)
    → HasTable s (p / 1024)
    → Room ((p + n) / 1024 - p / 1024) s
    → Reserve n (p + 1) s
Reserve-next zero p s t room = (omega (arith, room.0), room.1)
Reserve-next (suc n) p s t room = elim (Bool-cases ((p + 1) / 1024 == p / 1024)) [
  | inl same ↦
      let e : (p + 1) / 1024 ≡ p / 1024 = (==_iff _ _).0 same in
      inl (subst (λ i. HasTable s i) (sym e) t, (omega (arith, room.0, e), room.1))
  | inr other ↦ inr (ground (arith, other, room.0), room.1)
]

shift :
    (P : ℕ → ℕ → Type 0) (n p a k : ℕ)
    → P p a
    → ((j : ℕ) → j < n → P (p + 1 + j) (a + 4096 + j * 4096))
    → k < suc n
    → P (p + k) (a + k * 4096)
shift P n p a zero first later lt =
    let ep : p ≡ p + 0 = omega arith in
    let ea : a ≡ a + 0 * 4096 = omega arith in
    subst (λ q. P q (a + 0 * 4096)) ep (subst (λ b. P p b) ea first)
shift P n p a (suc k) first later lt =
    let ep : p + 1 + k ≡ p + suc k = omega arith in
    let ea : a + 4096 + k * 4096 ≡ a + suc k * 4096 = omega arith in
    subst (λ q. P q (a + suc k * 4096)) ep (subst (λ b. P (p + 1 + k) b) ea (later k (omega arith)))

Stepped-Ranged :
    (n m p a perm : ℕ) (s s1 s2 : Boot)
    → Stepped m p (present_entry a perm) s s1
    → Ranged n (p + 1) (a + 4096) perm s1 s2
    → Ranged (suc n) p a perm s s2
Stepped-Ranged n m p a perm s s1 s2 st r = record {
  is_boot = r.is_boot;
  room = r.room;
  mapped = λ k lt.
      let first = r.kept p (inl (omega arith)) st.here.0 in
      shift (λ q b. HasTable s2 (q / 1024) × (entry s2 q ≡ present_entry b perm)) n p a k
        (first.0, first.1 ∙ st.here.1) r.mapped lt;
  kept = λ q out t.
      let (ne, out') : (q ≢ p) × ((q < p + 1) ⊎ (p + 1 + n ≤ q)) = elim out [
        | inl below ↦ ((λ e. omega (arith, e, below)), inl (omega (arith, below)))
        | inr above ↦ ((λ e. omega (arith, e, above)), inr (omega (arith, above)))
      ] in
      let k = st.kept q ne t in let k' = r.kept q out' k.0 in (k'.0, k'.1 ∙ k.1);
}

loop_step :
    (fuel i va size pa perm ptr : ℕ) (s : Boot) (r : Option ℕ × Boot)
    → ltb i size ≡ true
    → boot_get_page_table va true s ≡ ok r
    → r.0 ≡ some ptr
    → boot_map_loop (suc fuel) i va size pa perm s
      ≡ boot_map_loop fuel
          (add32 i page_size)
          (add32 va page_size)
          size
          (add32 pa page_size)
          perm
          (written (word_of ptr (ptx va)) (present_entry pa perm) r.1)
unfolding boot_map_loop
loop_step fuel i va size pa perm ptr s r inside q q' = rw (inside, boot_map_loop, q, q') refl

loop_end :
    (fuel i va size pa perm : ℕ) (s : Boot)
    → ltb i size ≡ false
    → boot_map_loop (suc fuel) i va size pa perm s ≡ ok s
unfolding boot_map_loop
loop_end fuel i va size pa perm s past = rw (past, boot_map_loop) refl

pub loop_lem :
    (n fuel i p size a perm : ℕ) (s : Boot)
    → n < fuel
    → size ≤ i + n * 4096
    → i + n * 4096 < size + 4096
    → size + 4096 ≤ 2 ^ 32
    → p + n ≤ 2 ^ 20
    → a + n * 4096 ≤ 2 ^ 32
    → IsBoot s
    → Reserve n p s
    → Returns
        (Ranged n p a perm s)
        (boot_map_loop fuel i (p * 4096 % 2 ^ 32) size (a % 2 ^ 32) perm s)
loop_lem n zero i p size a perm s enough lo hi small pn an v room = absurd (omega arith)
loop_lem zero (suc fuel) i p size a perm s enough lo hi small pn an v room =
    returns s (loop_end fuel i _ size _ perm s (ground arith)) record {
      is_boot = v;
      room = room;
      mapped = λ k lt. absurd (omega (arith, lt));
      kept = λ q out t. (t, refl);
    }
loop_lem (suc n) (suc fuel) i p size a perm s enough lo hi small pn an v room =
    let inside : ltb i size ≡ true = lt→ltb _ _ (omega arith) in
    let va : p * 4096 % 2 ^ 32 ≡ p * 4096 = omega arith in
    let pa : a % 2 ^ 32 ≡ a = omega arith in
    let i' : add32 i 4096 ≡ i + 4096 = omega arith in
    let va' : add32 (p * 4096) 4096 ≡ (p + 1) * 4096 % 2 ^ 32 = omega arith in
    elim (round_lem n p 0 s (omega arith) v room) [
      | returns r q (ptr, q', w, g) ↦
          let e = present_entry a perm in
          let s1 = written (word_of ptr (ptx (p * 4096))) e r.1 in
          let st =
            Got-Stepped ((p + n) / 1024 - p / 1024) p e ptr (word_of ptr (ptx (p * 4096))) s r.1 w
              g in
          elim (loop_lem n fuel (i + 4096) (p + 1) size (a + 4096) perm s1 (omega arith)
            (omega arith) (omega arith) small (omega arith) (omega arith) st.is_boot
            (Reserve-next n p s1 st.here.0 st.room)) [
              | returns s2 q2 r2 ↦
                  let steps = loop_step fuel i (p * 4096) size a perm ptr s r inside q q' in
                  returns s2 (rw (va, pa) (steps ∙ rw (i', va') q2))
                    (Stepped-Ranged n _ p a perm s s1 s2 st r2)
            ]
    ]
