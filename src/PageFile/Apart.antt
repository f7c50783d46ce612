-- ===== src/PageFile/Apart.antt =====
-- No two pages share a disk frame, and no page has a free one.
use os_memory_management.Base.{
  ℕ, zero, suc, ◌+◌, ◌*◌, ◌/◌, ◌≡◌, ◌≢◌, refl, sym, ap, ◌∙◌, ◌⊎◌, inl, inr, arith, Bool, false,
  Bool-cases, List, ◌∷◌, ◌==◌, if◌then◌else◌, update, Avoids, Distinct,
}
use os_memory_management.PageFile.{
  PageFile, free_disk_frame, free_entry, free_entries, free_tables, add_table,
}

-- The disk frames of the entries `f` and the free ones: every free frame is there once, none is 0, none
-- is an entry's, and no two entries have the same.
pub record IsApart (f : ℕ → ℕ → ℕ) (free : List ℕ) : Type 0 where
  pub distinct : Distinct free
  pub nonzero : Avoids 0 free
  pub unused : (e k : ℕ) → f e k ≢ 0 → Avoids (f e k) free
  pub apart : (e k e' k' : ℕ) → f e k ≢ 0 → f e k ≡ f e' k' → (e ≡ e') × (k ≡ k')

abbrev pub IsPageFile : PageFile → Type 0
IsPageFile s = IsApart s.entry s.free

abbrev set : (ℕ → ℕ → ℕ) → ℕ → ℕ → ℕ → ℕ → ℕ → ℕ
set f e k d = update f e (update (f e) k d)

set_cases :
    (f : ℕ → ℕ → ℕ) (e k d e' k' : ℕ)
    → ((e' ≡ e) × (k' ≡ k) × (set f e k d e' k' ≡ d)) ⊎ (set f e k d e' k' ≡ f e' k')
set_cases f e k d e' k' = elim (Bool-cases (e' == e)) [
  | inr n ↦ inr (rw n refl)
  | inl same ↦ elim (Bool-cases (k' == k)) [
    | inl here ↦ inl (ground (arith, same), ground (arith, here), rw (same, here) refl)
    | inr n ↦
        let eq : e' ≡ e = ground (arith, same) in inr (rw (same, n) (ap (λ x. f x k') (sym eq)))
  ]
]

set_self : (f : ℕ → ℕ → ℕ) (e k d : ℕ) → set f e k d e k ≡ d
set_self f e k d = ground arith

or_zero : (a b : ℕ) → (a ≡ b) ⊎ (a ≡ 0) → a ≢ 0 → a ≡ b
or_zero a b (inl e) ne = e
or_zero a b (inr z) ne = absurd (ne z)

-- Entries that are as they were, or gone.
shrink :
    (f f' : ℕ → ℕ → ℕ) (free : List ℕ)
    → ((e k : ℕ) → (f' e k ≡ f e k) ⊎ (f' e k ≡ 0))
    → IsApart f free
    → IsApart f' free
shrink f f' free h v =
    let old = λ (e k : ℕ) (ne : f' e k ≢ 0). or_zero (f' e k) (f e k) (h e k) ne in
    record {
      distinct = v.distinct;
      nonzero = v.nonzero;
      unused = λ e k ne. rw (old e k ne) (v.unused e k (λ z. ne (old e k ne ∙ z)));
      apart = λ e k e' k' ne eq.
          v.apart e k e' k' (λ z. ne (old e k ne ∙ z))
            (sym (old e k ne) ∙ eq ∙ old e' k' (λ z. ne (eq ∙ z)));
    }

-- An entry gets the first free frame.
pub take :
    (f : ℕ → ℕ → ℕ) (e k d : ℕ) (free : List ℕ) → IsApart f (d ∷ free) → IsApart (set f e k d) free
take f e k d free v = record {
  distinct = v.distinct.1;
  nonzero = v.nonzero.1;
  unused = λ e1 k1 ne. elim (set_cases f e k d e1 k1) [
    | inl (_, _, new) ↦ rw new v.distinct.0
    | inr old ↦ rw old (v.unused e1 k1 (λ z. ne (old ∙ z))).1
  ];
  apart = λ e1 k1 e2 k2 ne eq. elim (set_cases f e k d e1 k1) [
    | inl (a, b, new) ↦ elim (set_cases f e k d e2 k2) [
      | inl (a', b', new') ↦ (a ∙ sym a', b ∙ sym b')
      | inr old' ↦ absurd ((v.unused e2 k2 (λ z. ne (eq ∙ old' ∙ z))).0 (sym new ∙ eq ∙ old'))
    ]
    | inr old ↦ elim (set_cases f e k d e2 k2) [
      | inl (a', b', new') ↦
          absurd ((v.unused e1 k1 (λ z. ne (old ∙ z))).0 (sym new' ∙ sym eq ∙ old))
      | inr old' ↦ v.apart e1 k1 e2 k2 (λ z. ne (old ∙ z)) (sym old ∙ eq ∙ old')
    ]
  ];
}

-- An entry is gone.
clear : (f : ℕ → ℕ → ℕ) (e k : ℕ) (free : List ℕ) → IsApart f free → IsApart (set f e k 0) free
clear f e k free v =
    shrink f (set f e k 0) free
      (λ e1 k1. elim (set_cases f e k 0 e1 k1) [ inl (_, _, gone) ↦ inr gone | inr old ↦ inl old ])
      v

-- An entry's frame becomes free.
give :
    (f : ℕ → ℕ → ℕ) (e k : ℕ) (free : List ℕ)
    → f e k ≢ 0
    → IsApart f free
    → IsApart (set f e k 0) (f e k ∷ free)
give f e k free ne v =
    let other_frame : (e1 k1 : ℕ) → set f e k 0 e1 k1 ≢ 0 → f e k ≢ set f e k 0 e1 k1 =
      λ e1 k1 ne1 z. elim (set_cases f e k 0 e1 k1) [
        | inl (_, _, gone) ↦ ne1 gone
        | inr old ↦
            let (a, b) = v.apart e k e1 k1 ne (z ∙ old) in
            ne1 (ap (set f e k 0 e1) (sym b) ∙ ap (λ x. set f e k 0 x k) (sym a) ∙ set_self f e k 0)
      ] in
    let w = clear f e k free v in
    record {
      distinct = (v.unused e k ne, v.distinct);
      nonzero = (ne, v.nonzero);
      unused = λ e1 k1 ne1. (other_frame e1 k1 ne1, w.unused e1 k1 ne1);
      apart = w.apart;
    }

pub free_entry-IsPageFile : (e k : ℕ) (s : PageFile) → IsPageFile s → IsPageFile (free_entry e k s)
unfolding free_disk_frame
free_entry-IsPageFile e k s v = elim (Bool-cases (s.entry e k == 0)) [
  | inr used ↦ rw used (give s.entry e k s.free (λ z. ground (arith, used, z)) v)
  | inl gone ↦ rw gone (clear s.entry e k s.free v)
]

pub free_entries-IsPageFile :
    (e n k : ℕ) (s : PageFile) → IsPageFile s → IsPageFile (free_entries e n k s)
unfolding free_entries
free_entries-IsPageFile e zero k s v = v
free_entries-IsPageFile e (suc n) k s v =
    free_entries-IsPageFile e n (k + 1) (free_entry e k s) (free_entry-IsPageFile e k s v)

pub free_tables-IsPageFile :
    (e n i : ℕ) (s : PageFile) → IsPageFile s → IsPageFile (free_tables e n i s)
unfolding free_tables
free_tables-IsPageFile e zero i s v = v
free_tables-IsPageFile e (suc n) i s v = elim (Bool-cases (s.table e i)) [
  | inl there ↦
      let s1 = free_entries e 1024 (i * 1024) s in
      let v1 : IsPageFile s1 = free_entries-IsPageFile e 1024 (i * 1024) s v in
      rw there (
        free_tables-IsPageFile e n (i + 1)
          (record s1 { table = update s1.table e (update (s1.table e) i false) }) v1)
  | inr gone ↦ rw gone (free_tables-IsPageFile e n (i + 1) s v)
]

-- Entries of an environment that are set to 0.
pub clear_entries-IsPageFile :
    (e : ℕ) (gone : ℕ → Bool) (s : PageFile)
    → IsPageFile s
    → IsApart (update s.entry e (λ k. if gone k then 0 else s.entry e k)) s.free
clear_entries-IsPageFile e gone s v =
    shrink s.entry (update s.entry e (λ k. if gone k then 0 else s.entry e k)) s.free
      (λ e1 k1. elim (Bool-cases (e1 == e)) [
        | inr n ↦ inl (rw n refl)
        | inl same ↦
            let eq : e ≡ e1 = ground (arith, same) in
            rw same elim (Bool-cases (gone k1)) [
              | inl here ↦ rw here (inr refl)
              | inr there ↦ rw there (inl (ap (λ x. s.entry x k1) eq))
            ]
      ])
      v

pub add_table-IsPageFile : (e i : ℕ) (s : PageFile) → IsPageFile s → IsPageFile (add_table e i s)
add_table-IsPageFile e i s v = clear_entries-IsPageFile e (λ k. k / 1024 == i) s v
