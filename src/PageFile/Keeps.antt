-- ===== src/PageFile/Keeps.antt =====
-- The operations of the page file keep its invariant.
use mathlib.Core.Path.{subst}
use os_memory_management.Base.{
  ℕ, ◌+◌, ◌^◌, inl, inr, Bool, true, false, Bool-cases, List-cases, Option, none, some, leb, ltb,
  ◌==◌, update, Run, ok, fault, out_of_fuel, guard, ◌>>=◌, ◌>>◌,
}
use os_memory_management.Mmu.{kernel_base, user_top, pdx, ppn}
use os_memory_management.PageFile.{
  PageFile, Page, free_tables, pf_free_env, pf_remove_env_all_tables, pf_remove_env_page,
  pf_remove_env_table, kmalloc_page, get_disk_page_directory, get_disk_page_table,
  allocate_disk_frame, entry_frame, page_frame, fill_frame, leave_frame, write_disk_page,
  pf_add_env_page, pf_add_empty_env_page, pf_update_env_page, get_disk_table_directory,
  pf_write_env_table,
}
use os_memory_management.PageFile.Apart.{
  IsApart, IsPageFile, take, free_entry-IsPageFile, free_entries-IsPageFile, free_tables-IsPageFile,
  add_table-IsPageFile, clear_entries-IsPageFile,
}

-- Where the run gives a result, the invariant holds of its state.
abbrev pub Keeps {ℓ} : {A : Type ℓ} → (A → PageFile) → Run A → Type 0
Keeps state (ok a) = IsPageFile (state a)
Keeps state fault = Unit
Keeps state out_of_fuel = Unit

Keeps-guard {ℓ} :
    {A : Type ℓ} (state : A → PageFile) (b : Bool) (r : Run A)
    → Keeps state r
    → Keeps state (guard b >> r)
Keeps-guard state true r h = h
Keeps-guard state false r h = tt

Keeps-bind {ℓ κ} :
    {A : Type ℓ} {B : Type κ} (state : A → PageFile) (state' : B → PageFile) (r : Run A)
    (f : A → Run B)
    → Keeps state r
    → ((a : A) → IsPageFile (state a) → Keeps state' (f a))
    → Keeps state' (r >>= f)
Keeps-bind state state' (ok a) f h k = k a h
Keeps-bind state state' fault f h k = tt
Keeps-bind state state' out_of_fuel f h k = tt

kmalloc_page-IsPageFile : (s : PageFile) → IsPageFile s → IsPageFile (kmalloc_page s).1
unfolding kmalloc_page
kmalloc_page-IsPageFile s v = elim (List-cases s.memory) [
  | inl e ↦ rw e v
  | inr (b, bs, e) ↦ rw e v
]

pub directory-IsPageFile :
    (e : ℕ) (s : PageFile) → IsPageFile s → IsPageFile (get_disk_page_directory e s).1
unfolding get_disk_page_directory
directory-IsPageFile e s v =
    let v1 = kmalloc_page-IsPageFile s v in
    elim (Bool-cases (s.dir e)) [
      | inl there ↦ rw there v
      | inr none_ ↦ elim (Bool-cases (kmalloc_page s).0) [
        | inl given ↦ rw (none_, given) v1
        | inr full ↦ rw (none_, full) v1
      ]
    ]

abbrev pub state {ℓ} : {A : Type ℓ} → A × PageFile → PageFile
state r = r.1

pub table-Keeps :
    (e va : ℕ) (create : Bool) (s : PageFile)
    → IsPageFile s
    → Keeps (λ r. r.1) (get_disk_page_table e va create s)
unfolding get_disk_page_table
table-Keeps e va create s v =
    let v1 = kmalloc_page-IsPageFile s v in
    Keeps-guard state (s.dir e) _ (elim (Bool-cases (s.table e (pdx va))) [
      | inl there ↦ rw there v
      | inr none_ ↦ elim (Bool-cases create) [
        | inr no_create ↦ rw (none_, no_create) v
        | inl new ↦ elim (Bool-cases (kmalloc_page s).0) [
          | inl given ↦
              rw (none_, new, given) (add_table-IsPageFile e (pdx va) (kmalloc_page s).1 v1)
          | inr full ↦ rw (none_, new, full) v1
        ]
      ]
    ])

entry_frame-IsPageFile : (e k : ℕ) (s : PageFile) → IsPageFile s → IsPageFile (entry_frame e k s).1
unfolding entry_frame allocate_disk_frame
entry_frame-IsPageFile e k s v = elim (Bool-cases (s.entry e k == 0)) [
  | inr used ↦ rw used v
  | inl gone ↦ elim (List-cases s.free) [
    | inl full ↦ rw (gone, full) v
    | inr (d, fs, more) ↦ rw (gone, more) (take s.entry e k d fs (subst (IsApart s.entry) more v))
  ]
]

page_frame-Keeps : (e va : ℕ) (s : PageFile) → IsPageFile s → Keeps (λ r. r.1) (page_frame e va s)
unfolding page_frame
page_frame-Keeps e va s v =
    let s1 = (get_disk_page_directory e s).1 in
    Keeps-guard state (ltb va kernel_base) _ (
      Keeps-bind state state (get_disk_page_table e va true s1) _
        (table-Keeps e va true s1 (directory-IsPageFile e s v))
        (λ r v1. Keeps-guard state r.0 _ (entry_frame-IsPageFile e (ppn va) r.1 v1)))

fill_frame-IsPageFile :
    (page : Page) (r : Option ℕ × PageFile) → IsPageFile r.1 → IsPageFile (fill_frame page r).1
unfolding write_disk_page
fill_frame-IsPageFile page (none, s) v = v
fill_frame-IsPageFile page (some dfn, s) v = v

leave_frame-IsPageFile : (r : Option ℕ × PageFile) → IsPageFile r.1 → IsPageFile (leave_frame r).1
leave_frame-IsPageFile (none, s) v = v
leave_frame-IsPageFile (some dfn, s) v = v

pub add-Keeps :
    (e va : ℕ) (page : Page) (s : PageFile)
    → IsPageFile s
    → Keeps state (pf_add_env_page e va page s)
unfolding pf_add_env_page
add-Keeps e va page s v =
    Keeps-bind state state (page_frame e va s) _ (page_frame-Keeps e va s v)
      (λ r v1. fill_frame-IsPageFile page r v1)

pub add_empty-Keeps :
    (zero_page : Page) (e va : ℕ) (by_zero : Bool) (s : PageFile)
    → IsPageFile s
    → Keeps state (pf_add_empty_env_page zero_page e va by_zero s)
unfolding pf_add_empty_env_page
add_empty-Keeps zero_page e va true s v = add-Keeps e va zero_page s v
add_empty-Keeps zero_page e va false s v =
    Keeps-bind state state (page_frame e va s) _ (page_frame-Keeps e va s v)
      (λ r v1. leave_frame-IsPageFile r v1)

pub update-Keeps :
    (e va : ℕ) (page : Page) (s : PageFile)
    → IsPageFile s
    → Keeps state (pf_update_env_page e va page s)
unfolding pf_update_env_page write_disk_page
update-Keeps e va page s v =
    let s1 = (get_disk_page_directory e s).1 in
    Keeps-guard state (ltb va kernel_base) _ (
      Keeps-bind state state (get_disk_page_table e va false s1) _
        (table-Keeps e va false s1 (directory-IsPageFile e s v))
        (λ r v1. elim (Bool-cases r.0) [
          | inr none_ ↦ rw none_ v1
          | inl found ↦ elim (Bool-cases (r.1.entry e (ppn va) == 0)) [
            | inl gone ↦ rw (found, gone) v1
            | inr used ↦ rw (found, used) v1
          ]
        ]))

pub remove-Keeps :
    (e va : ℕ) (s : PageFile) → IsPageFile s → Keeps (λ s'. s') (pf_remove_env_page e va s)
unfolding pf_remove_env_page get_disk_page_table
remove-Keeps e va s v = elim (Bool-cases (s.dir e)) [
  | inr none_ ↦ rw none_ v
  | inl there ↦ elim (Bool-cases (s.table e (pdx va))) [
    | inr none_ ↦ rw (there, none_) v
    | inl found ↦ rw (there, found) (free_entry-IsPageFile e (ppn va) s v)
  ]
]

all_tables-IsPageFile :
    (e : ℕ) (s : PageFile) → IsPageFile s → IsPageFile (pf_remove_env_all_tables e s)
unfolding pf_remove_env_all_tables
all_tables-IsPageFile e s v = elim (Bool-cases (s.table_dir e)) [
  | inr none_ ↦ rw none_ v
  | inl there ↦ rw there (free_entries-IsPageFile e (pdx user_top) (2 ^ 20) s v)
]

pub free_env-Keeps : (e : ℕ) (s : PageFile) → IsPageFile s → Keeps (λ s'. s') (pf_free_env e s)
unfolding pf_free_env
free_env-Keeps e s v =
    let s1 = free_tables e (pdx user_top) 0 s in
    let v1 = free_tables-IsPageFile e (pdx user_top) 0 s v in
    let s2 : PageFile = record s1 { dir = update s1.dir e false } in
    let v3 = all_tables-IsPageFile e s2 v1 in
    Keeps-guard (λ s'. s') (s.dir e) _
      (elim (Bool-cases (s1.table_dir e)) [ inr none_ ↦ rw none_ v1 | inl there ↦ rw there v3 ])

table_directory-IsPageFile :
    (e : ℕ) (s : PageFile) → IsPageFile s → IsPageFile (get_disk_table_directory e s).1
unfolding get_disk_table_directory
table_directory-IsPageFile e s v =
    let s1 = (kmalloc_page s).1 in
    let v1 = kmalloc_page-IsPageFile s v in
    elim (Bool-cases (s.table_dir e)) [
      | inl there ↦ rw there v
      | inr none_ ↦ elim (Bool-cases (kmalloc_page s).0) [
        | inr full ↦ rw (none_, full) v1
        | inl given ↦ rw (none_, given) (clear_entries-IsPageFile e (λ k. leb (2 ^ 20) k) s1 v1)
      ]
    ]

pub write_table-Keeps :
    (e va : ℕ) (page : Page) (s : PageFile)
    → IsPageFile s
    → Keeps state (pf_write_env_table e va page s)
unfolding pf_write_env_table
write_table-Keeps e va page s v =
    let s1 = (get_disk_table_directory e s).1 in
    let r = entry_frame e (2 ^ 20 + pdx va) s1 in
    Keeps-guard state (ltb va kernel_base) _ (
      Keeps-guard state (get_disk_table_directory e s).0 _ (
        fill_frame-IsPageFile page r
          (entry_frame-IsPageFile e (2 ^ 20 + pdx va) s1 (table_directory-IsPageFile e s v))))

pub remove_table-IsPageFile :
    (e va : ℕ) (s : PageFile) → IsPageFile s → IsPageFile (pf_remove_env_table e va s)
unfolding pf_remove_env_table
remove_table-IsPageFile e va s v = elim (Bool-cases (s.table_dir e)) [
  | inr none_ ↦ rw none_ v
  | inl there ↦ rw there (free_entry-IsPageFile e (2 ^ 20 + pdx va) s v)
]
