-- ===== src/PageFile/Created.antt =====
-- The disk frame of a page, and that creating a directory or a table of the page file changes none.
use os_memory_management.Base.{
  ℕ, ◌/◌, ◌^◌, ◌<◌, ◌≡◌, refl, sym, ap, ◌∙◌, inl, inr, arith, Bool, true, false, Bool-cases, ◌&&◌,
  List, ◌∷◌, Option, none, some, ◌==◌, if◌then◌else◌, ok, Returns, returns,
}
use os_memory_management.Mmu.{page_size, pdx, ppn, round_down}
use os_memory_management.PageFile.{
  PageFile, Page, kmalloc_page, get_disk_page_directory, get_disk_page_table, read_disk_page,
  pf_read_env_page,
}

-- The disk frame of page `p` of environment `e`, or 0.
abbrev pub frame_of : PageFile → ℕ → ℕ → ℕ
frame_of s e p = if s.dir e && s.table e (p / 1024) then s.entry e p else 0

-- The page that is read.
abbrev pub page_of : PageFile → ℕ → ℕ → Option Page
page_of s e p = if frame_of s e p == 0 then none else some (read_disk_page (frame_of s e p) s)

ppn-round_down : (va : ℕ) → va < 2 ^ 32 → ppn (round_down va page_size) ≡ ppn va
unfolding round_down
ppn-round_down va lt = omega (arith, lt)

pdx-round_down : (va : ℕ) → va < 2 ^ 32 → pdx (round_down va page_size) ≡ ppn va / 1024
unfolding round_down
pdx-round_down va lt = omega (arith, lt)

pdx_lem : (va : ℕ) → va < 2 ^ 32 → pdx va ≡ ppn va / 1024
pdx_lem va lt = omega (arith, lt)

pub pf_read_env_page_lem :
    (e va : ℕ) (s : PageFile) → va < 2 ^ 32 → pf_read_env_page e va s ≡ ok (page_of s e (ppn va))
unfolding pf_read_env_page get_disk_page_table
pf_read_env_page_lem e va s lt =
    rw (ppn-round_down va lt, pdx-round_down va lt)
      elim (Bool-cases (s.dir e)) [
        | inr none_ ↦ rw none_ refl
        | inl there ↦ elim (Bool-cases (s.table e (ppn va / 1024))) [
          | inr gone ↦ rw (there, gone) refl
          | inl found ↦ rw (there, found) refl
        ]
      ]

-- The state after a directory or a table is created, which is empty.
pub record Same (s s' : PageFile) : Type 0 where
  pub frames : (e p : ℕ) → frame_of s' e p ≡ frame_of s e p
  pub free : s'.free ≡ s.free
  pub disk : s'.disk ≡ s.disk

pub directory-Same :
    (e : ℕ) (s : PageFile) (rest : List Bool)
    → s.memory ≡ true ∷ true ∷ rest
    → let s' = (get_disk_page_directory e s).1 in
      Same s s' × (s'.dir e ≡ true) × ((r : List Bool) × (s'.memory ≡ true ∷ r))
unfolding get_disk_page_directory kmalloc_page
directory-Same e s rest m = elim (Bool-cases (s.dir e)) [
  | inl there ↦
      rw there (record { frames = λ e1 p. refl; free = refl; disk = refl }, there, (true ∷ rest, m))
  | inr none_ ↦
      rw (none_, m)
        (
          record {
            frames = λ e1 p. elim (Bool-cases (e1 == e)) [
              | inr n ↦ rw n refl
              | inl same ↦
                  let eq : e1 ≡ e = ground (arith, same) in
                  let closed : s.dir e1 ≡ false = ap s.dir eq ∙ none_ in rw (same, closed) refl
            ];
            free = refl;
            disk = refl;
          },
          ground arith,
          (rest, refl),
        )
]

pub table-Same :
    (e va : ℕ) (s : PageFile) (rest : List Bool)
    → s.memory ≡ true ∷ rest
    → s.dir e ≡ true
    → va < 2 ^ 32
    → Returns
        (λ r. (r.0 ≡ true) × Same s r.1 × (r.1.dir e ≡ true) × (r.1.table e (ppn va / 1024) ≡ true))
        (get_disk_page_table e va true s)
unfolding get_disk_page_table kmalloc_page
table-Same e va s rest m dir lt = rw (pdx_lem va lt) elim (Bool-cases (s.table e (ppn va / 1024))) [
  | inl there ↦
      rw (dir, there)
        (returns _ refl
          (refl, record { frames = λ e1 p. refl; free = refl; disk = refl }, dir, there))
  | inr none_ ↦
      rw (dir, none_, m)
        (returns _ refl (
          refl,
          record {
            frames = λ e1 p. elim (Bool-cases (e1 == e)) [
              | inr n ↦ rw n refl
              | inl same ↦
                  let eq : e1 ≡ e = ground (arith, same) in
                  elim (Bool-cases (p / 1024 == ppn va / 1024)) [
                    | inl here ↦
                        let eqi : p / 1024 ≡ ppn va / 1024 = ground (arith, here) in
                        let closed : s.table e1 (p / 1024) ≡ false =
                          ap (λ x. s.table x (p / 1024)) eq ∙ ap (s.table e) eqi ∙ none_ in
                        rw (same, here, closed)
                          elim (Bool-cases (s.dir e1)) [ inl t ↦ rw t refl | inr f ↦ rw f refl ]
                    | inr n ↦
                        rw (same, n)
                          (ap (λ x. if s.dir e1 && s.table x (p / 1024) then s.entry x p else 0)
                            (sym eq))
                  ]
            ];
            free = refl;
            disk = refl;
          },
          dir,
          ground arith,
        ))
]
