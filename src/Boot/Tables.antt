-- ===== src/Boot/Tables.antt =====
-- The page tables of kern/memory_manager.c while the kernel starts: boot_get_page_table keeps them apart.
use os_memory_management.Base.{
  ℕ, suc, ◌+◌, ◌-◌, ◌*◌, ◌/◌, ◌^◌, ◌≤◌, ◌<◌, ◌≡◌, ◌≢◌, ◌⊎◌, inl, inr, refl, sym, ap, ◌∙◌, arith,
  true, false, Bool-cases, some, ltb, lt→ltb, ◌==◌, ==_iff, update, update-ne, update_self, Returns,
  returns,
}
use os_memory_management.Mmu.{
  kernel_base, add32, sub32, round_up, round_down, pdx, ppn, is_present, extract_address,
}
use os_memory_management.Boot.{Boot, next_free, boot_allocate_space, boot_get_page_table}

-- A directory entry points to a table that lies in front of the free memory.
pub record HasTable (s : Boot) (i : ℕ) : Type 0 where
  pub present : is_present (s.dir i) ≡ true
  pub some_frame : 1 ≤ ppn (s.dir i)
  pub below_free : kernel_base + (ppn (s.dir i) + 1) * 4096 ≤ next_free s

-- Every directory entry is empty or has a table, and no two have the same; the free memory is above
-- KERNEL_BASE.
pub record IsBoot (s : Boot) : Type 0 where
  pub tables : (i : ℕ) → (s.dir i ≡ 0) ⊎ HasTable s i
  pub apart : (i j : ℕ) → i ≢ j → HasTable s i → HasTable s j → ppn (s.dir i) ≢ ppn (s.dir j)
  pub start : kernel_base + 4096 ≤ next_free s

-- There is memory for `n` more pages.
abbrev pub Room : ℕ → Boot → Type 0
Room n s =
    ((next_free s + 4095) / 4096 * 4096 + n * 4096 ≤ kernel_base + s.count * 4096)
    × (kernel_base + s.count * 4096 < 2 ^ 32)

round_up_lem : (a : ℕ) → a + 4095 < 2 ^ 32 → round_up a 4096 ≡ (a + 4095) / 4096 * 4096
unfolding round_up round_down
round_up_lem a lt = omega arith

-- What boot_get_page_table leaves for an address with the directory index `i`
pub record Got (n i : ℕ) (s : Boot) (p : ℕ) (s' : Boot) : Type 0 where
  pub is_boot : IsBoot s'
  pub room : Room n s'
  pub table : HasTable s' i
  pub pointer : sub32 p kernel_base ≡ ppn (s'.dir i) * 4096
  pub kept : (j : ℕ) → HasTable s j → HasTable s' j × (s'.dir j ≡ s.dir j)
  pub words : s'.words ≡ s.words

-- The state after a table has been allocated at the frame number `f` of the kernel's memory
abbrev grown : ℕ → ℕ → Boot → Boot
grown f i s = record s {
  free_mem = kernel_base + (f + 1) * 4096;
  dir = update s.dir i (f * 4096 + 3);
}

grown-kept :
    (f i j : ℕ) (s : Boot)
    → s.dir i ≡ 0
    → next_free s ≤ kernel_base + f * 4096
    → HasTable s j
    → HasTable (grown f i s) j × ((grown f i s).dir j ≡ s.dir j)
grown-kept f i j s e le t =
    let ne : i ≢ j = λ q. ground (arith, e, ap s.dir q, t.present) in
    let same = update-ne s.dir i j (f * 4096 + 3) ne in
    (
      record {
        present = rw same t.present;
        some_frame = rw same t.some_frame;
        below_free = rw same (ground (arith, t.below_free, le));
      },
      same,
    )

grown-back : (f i j : ℕ) (s : Boot) → IsBoot s → i ≢ j → HasTable (grown f i s) j → HasTable s j
grown-back f i j s v ne t = elim (v.tables j) [
  | inl e ↦
      let same = update-ne s.dir i j (f * 4096 + 3) ne in
      absurd (ground (arith, e, same, t.present))
  | inr t' ↦ t'
]

grown-table :
    (f i : ℕ) (s : Boot) → 1 ≤ f → HasTable (grown f i s) i × (ppn ((grown f i s).dir i) ≡ f)
grown-table f i s pos =
    let e = update_self s.dir i (f * 4096 + 3) in
    (
      record {
        present = rw e (ground arith);
        some_frame = rw e (omega (arith, pos));
        below_free = rw e (ground arith);
      },
      ap ppn e ∙ omega arith,
    )

-- A table that there was before lies in front of the new one.
old_below :
    (f j : ℕ) (s : Boot) → next_free s ≤ kernel_base + f * 4096 → HasTable s j → ppn (s.dir j) ≢ f
old_below f j s le t e = omega (arith, le, t.below_free, e)

grown-IsBoot :
    (f i : ℕ) (s : Boot)
    → IsBoot s
    → s.dir i ≡ 0
    → 1 ≤ f
    → next_free s ≤ kernel_base + f * 4096
    → IsBoot (grown f i s)
grown-IsBoot f i s v e pos le = record {
  tables = λ j. elim (Bool-cases (j == i)) [
    | inl same ↦ rw ((==_iff j i).0 same) (inr (grown-table f i s pos).0)
    | inr other ↦ elim (v.tables j) [
      | inl e' ↦ inl (update-ne s.dir i j (f * 4096 + 3) (λ q. ground (arith, other, q)) ∙ e')
      | inr t ↦ inr (grown-kept f i j s e le t).0
    ]
  ];
  apart = λ j k ne tj tk. elim (Bool-cases (j == i)) [
    | inl same ↦
        let ik : i ≢ k = λ q. ne ((==_iff j i).0 same ∙ q) in
        let old = grown-back f i k s v ik tk in
        λ q. old_below f k s le old (
          ap ppn (sym (update-ne s.dir i k (f * 4096 + 3) ik))
          ∙ sym q
          ∙ ap (λ a. ppn ((grown f i s).dir a)) ((==_iff j i).0 same)
          ∙ (grown-table f i s pos).1)
    | inr other ↦
        let ij : i ≢ j = λ q. ground (arith, other, q) in
        let old = grown-back f i j s v ij tj in
        let dj = ap ppn (update-ne s.dir i j (f * 4096 + 3) ij) in
        elim (Bool-cases (k == i)) [
          | inl same ↦ λ q. old_below f j s le old (
              sym dj
              ∙ q
              ∙ ap (λ a. ppn ((grown f i s).dir a)) ((==_iff k i).0 same)
              ∙ (grown-table f i s pos).1)
          | inr other' ↦
              let ik : i ≢ k = λ q. ground (arith, other', q) in
              let old' = grown-back f i k s v ik tk in
              λ q.
                v.apart j k ne old old'
                  (sym dj ∙ q ∙ ap ppn (update-ne s.dir i k (f * 4096 + 3) ik))
        ]
  ];
  start = ground (arith, pos);
}

-- Where there is a table, boot_get_page_table returns it and allocates nothing.
pub existing-Got :
    (n va : ℕ) (s : Boot)
    → IsBoot s
    → Room n s
    → HasTable s (pdx va)
    → Returns
        (λ r. (p : ℕ) × (r.0 ≡ some p) × Got n (pdx va) s p r.1)
        (boot_get_page_table va true s)
unfolding boot_get_page_table
existing-Got n va s v room t =
    let d = s.dir (pdx va) in
    let exists : ltb (ppn (extract_address d)) s.count ≡ true =
      lt→ltb _ _ (omega (arith, t.below_free, room.0)) in
    let used : (extract_address d == 0) ≡ false = ground (arith, t.some_frame) in
    let pointer : sub32 (add32 (extract_address d) kernel_base) kernel_base ≡ ppn d * 4096 =
      omega (arith, t.below_free, room.0, room.1) in
    rw (exists, used)
      (returns (some (add32 (extract_address d) kernel_base), s) refl
        (
          add32 (extract_address d) kernel_base,
          refl,
          record {
            is_boot = v;
            room = room;
            table = t;
            pointer = pointer;
            kept = λ j t'. (t', refl);
            words = refl;
          },
        ))

-- boot_get_page_table returns the table of an address, and allocates it where there is none. The tables
-- that were there stay, and no two tables have the same frame.
pub get_page_table-Got :
    (n va : ℕ) (s : Boot)
    → IsBoot s
    → Room (suc n) s
    → Returns
        (λ r. (p : ℕ) × (r.0 ≡ some p) × Got n (pdx va) s p r.1)
        (boot_get_page_table va true s)
unfolding boot_get_page_table boot_allocate_space
get_page_table-Got n va s v room = elim (v.tables (pdx va)) [
  | inl e ↦
      let f = (next_free s + 4095) / 4096 - 983040 in
      let up : round_up (next_free s) 4096 ≡ kernel_base + f * 4096 =
        round_up_lem (next_free s) (omega (arith, room.0, room.1)) ∙ omega (arith, v.start) in
      let le : next_free s ≤ kernel_base + f * 4096 = omega (arith, v.start) in
      let pos : 1 ≤ f = omega (arith, v.start) in
      let exists : ltb 0 s.count ≡ true = lt→ltb _ _ (omega (arith, v.start, room.0)) in
      let above : ltb (kernel_base + f * 4096) kernel_base ≡ false = ground arith in
      let next : add32 (kernel_base + f * 4096) 4096 ≡ kernel_base + (f + 1) * 4096 =
        omega (arith, room.0, room.1, v.start) in
      let physical : kernel_base + f * 4096 - kernel_base ≡ f * 4096 = omega arith in
      let back : sub32 (kernel_base + f * 4096) kernel_base ≡ f * 4096 =
        omega (arith, room.0, room.1, v.start) in
      rw (e, exists, up, above, next, physical)
        (returns (some (kernel_base + f * 4096), grown f (pdx va) s) refl
          (
            kernel_base + f * 4096,
            refl,
            record {
              is_boot = grown-IsBoot f (pdx va) s v e pos le;
              room = (ground (arith, room.0, v.start), room.1);
              table = (grown-table f (pdx va) s pos).0;
              pointer = back ∙ ap (λ a. a * 4096) (sym (grown-table f (pdx va) s pos).1);
              kept = λ j t. grown-kept f (pdx va) j s e le t;
              words = refl;
            },
          ))
  | inr t ↦ existing-Got n va s v (omega (arith, room.0), room.1) t
]
