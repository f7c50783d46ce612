-- ===== src/PageFile/RoundTrip.antt =====
-- What is read from the page file is what was written to it.
use mathlib.Core.Path.{subst}
use os_memory_management.Base.{
  ℕ, ◌+◌, ◌*◌, ◌/◌, ◌^◌, ◌<◌, ◌≡◌, ◌≢◌, refl, sym, ap, ◌∙◌, inl, inr, arith, Bool, true, false,
  Bool-cases, ◌&&◌, List, ◌∷◌, Option, none, some, leb, ltb, ◌==◌, if◌then◌else◌, ok, Returns,
  returns, lt→ltb,
}
use os_memory_management.Mmu.{kernel_base, ppn}
use os_memory_management.PageFile.{
  PageFile, Page, success, set_entry, get_disk_page_directory, allocate_disk_frame, entry_frame,
  page_frame, fill_frame, write_disk_page, read_disk_page, pf_add_env_page, pf_read_env_page,
  sectors_per_page, start_sector,
}
use os_memory_management.PageFile.Apart.{IsApart, IsPageFile}
use os_memory_management.PageFile.Keeps.{Keeps, directory-IsPageFile, table-Keeps}
use os_memory_management.PageFile.Created.{
  frame_of, page_of, Same, directory-Same, table-Same, pf_read_env_page_lem,
}

frame_of-entry : (s : PageFile) (e p : ℕ) → frame_of s e p ≢ 0 → frame_of s e p ≡ s.entry e p
frame_of-entry s e p ne = elim (Bool-cases (s.dir e && s.table e (p / 1024))) [
  | inl there ↦ rw there refl
  | inr gone ↦ absurd (ne (rw gone refl))
]

-- The frame that the page gets is its own.
record Framed (e k : ℕ) (s : PageFile) (r : Option ℕ × PageFile) : Type 0 where
  frame : ℕ
  found : r.0 ≡ some frame
  nonzero : frame ≢ 0
  here : frame_of r.1 e k ≡ frame
  kept : (e1 p : ℕ) → (e1 == e && p == k) ≡ false → frame_of r.1 e1 p ≡ frame_of s e1 p
  own : (e1 p : ℕ) → (e1 == e && p == k) ≡ false → frame_of s e1 p ≢ frame
  disk : r.1.disk ≡ s.disk

not_both : (e e1 k p : ℕ) → (e1 == e && p == k) ≡ false → e ≡ e1 → k ≡ p → (A : Type 0) → A
not_both e e1 k p other a b A = absurd (ground (arith, other, a, b))

kept_entry :
    (e k d : ℕ) (s : PageFile) (e1 p : ℕ)
    → (e1 == e && p == k) ≡ false
    → frame_of (set_entry e k d s) e1 p ≡ frame_of s e1 p
kept_entry e k d s e1 p other = elim (Bool-cases (e1 == e)) [
  | inr n ↦ rw n refl
  | inl same ↦
      let eq : e ≡ e1 = ground (arith, same) in
      let n : (p == k) ≡ false = ground (arith, other, same) in
      rw (same, n) (ap (λ x. if s.dir e1 && s.table e1 (p / 1024) then s.entry x p else 0) eq)
]

entry_frame-Framed :
    (e k : ℕ) (s : PageFile) (d : ℕ) (fs : List ℕ)
    → IsPageFile s
    → s.free ≡ d ∷ fs
    → s.dir e ≡ true
    → s.table e (k / 1024) ≡ true
    → Framed e k s (entry_frame e k s)
unfolding entry_frame allocate_disk_frame
entry_frame-Framed e k s d fs v more dir table = elim (Bool-cases (s.entry e k == 0)) [
  | inr used ↦
      let ne : s.entry e k ≢ 0 = λ z. ground (arith, used, z) in
      rw used record {
        frame = s.entry e k;
        found = refl;
        nonzero = ne;
        here = rw (dir, table) refl;
        kept = λ e1 p other. refl;
        own = λ e1 p other eq.
            let same =
              v.apart e k e1 p ne (sym eq ∙ frame_of-entry s e1 p (λ z. ne (sym eq ∙ z))) in
            not_both e e1 k p other same.0 same.1 _;
        disk = refl;
      }
  | inl gone ↦
      let w = subst (IsApart s.entry) more v in
      rw (gone, more)
        record {
          frame = d;
          found = refl;
          nonzero = λ z. w.nonzero.0 z;
          here =
              let t : (s.dir e && s.table e (k / 1024)) ≡ true = rw (dir, table) refl in
              ground (arith, t);
          kept = λ e1 p other. kept_entry e k d s e1 p other;
          own = λ e1 p other eq.
              let ne : frame_of s e1 p ≢ 0 = λ z. w.nonzero.0 (sym eq ∙ z) in
              let here = frame_of-entry s e1 p ne in
              (w.unused e1 p (λ z. ne (here ∙ z))).0 (sym eq ∙ here);
          disk = refl;
        }
]

-- Two contents of a page that are the same.
abbrev pub SamePage : Page → Page → Type 0
SamePage p q = (i : ℕ) → i < sectors_per_page → p i ≡ q i

-- The page `page` is read.
abbrev pub Reads : Page → Option Page → Type 0
Reads page none = ⊥
Reads page (some q) = SamePage q page

-- The same is read.
abbrev pub Alike : Option Page → Option Page → Type 0
Alike none none = Unit
Alike (some p) (some q) = SamePage p q
Alike none (some q) = ⊥
Alike (some p) none = ⊥

read-write_here :
    (d : ℕ) (page : Page) (s : PageFile)
    → SamePage (read_disk_page d (write_disk_page d page s)) page
unfolding write_disk_page
read-write_here d page s i lt =
    let inside : (leb (start_sector + d * sectors_per_page)
            (start_sector + d * sectors_per_page + i)
          && ltb (start_sector + d * sectors_per_page + i)
              (start_sector + d * sectors_per_page + sectors_per_page))
        ≡ true =
      ground (arith, lt) in
    rw inside (ap page (omega arith))

read-write_other :
    (d x : ℕ) (page : Page) (s : PageFile)
    → x ≢ d
    → SamePage (read_disk_page x s) (read_disk_page x (write_disk_page d page s))
unfolding write_disk_page
read-write_other d x page s ne i lt =
    let outside : (leb (start_sector + d * sectors_per_page)
            (start_sector + x * sectors_per_page + i)
          && ltb (start_sector + x * sectors_per_page + i)
              (start_sector + d * sectors_per_page + sectors_per_page))
        ≡ false =
      ground (arith, lt, ne) in
    rw outside refl

frame_of-write :
    (d : ℕ) (page : Page) (s : PageFile) (e p : ℕ)
    → frame_of (write_disk_page d page s) e p ≡ frame_of s e p
unfolding write_disk_page
frame_of-write d page s e p = refl

page_of-Reads :
    (d : ℕ) (page : Page) (s : PageFile) (e p : ℕ)
    → d ≢ 0
    → frame_of s e p ≡ d
    → Reads page (page_of (write_disk_page d page s) e p)
page_of-Reads d page s e p ne here =
    let here' : frame_of (write_disk_page d page s) e p ≡ d = frame_of-write d page s e p ∙ here in
    let used : (d == 0) ≡ false = ground (arith, ne) in rw (here', used) (read-write_here d page s)

page_of-Alike :
    (d : ℕ) (page : Page) (s s1 : PageFile) (e p : ℕ)
    → frame_of s1 e p ≡ frame_of s e p
    → frame_of s e p ≢ d
    → s1.disk ≡ s.disk
    → Alike (page_of s e p) (page_of (write_disk_page d page s1) e p)
page_of-Alike d page s s1 e p same ne disk =
    let here : frame_of (write_disk_page d page s1) e p ≡ frame_of s e p =
      frame_of-write d page s1 e p ∙ same in
    rw here elim (Bool-cases (frame_of s e p == 0)) [
      | inl gone ↦ rw gone tt
      | inr used ↦ rw used (λ i lt.
          ap (λ (m : ℕ → ℕ). m (start_sector + frame_of s e p * sectors_per_page + i)) (sym disk)
          ∙ read-write_other d (frame_of s e p) page s1 ne i lt)
    ]

-- The state after the page is added: the page is read, and every other as before.
pub record Added (e va : ℕ) (page : Page) (s s' : PageFile) : Type 0 where
  pub here : Returns (Reads page) (pf_read_env_page e va s')
  pub others :
      (e1 va1 : ℕ)
      → va1 < 2 ^ 32
      → (e1 == e && ppn va1 == ppn va) ≡ false
      → Returns
          (λ o. Returns (λ o'. Alike o o') (pf_read_env_page e1 va1 s'))
          (pf_read_env_page e1 va1 s)

Framed-Added :
    (e va : ℕ) (page : Page) (s s2 : PageFile)
    → Same s s2
    → va < 2 ^ 32
    → (f : Framed e (ppn va) s2 (entry_frame e (ppn va) s2))
    → Added e va page s (write_disk_page f.frame page (entry_frame e (ppn va) s2).1)
Framed-Added e va page s s2 same lt f =
    let s3 = (entry_frame e (ppn va) s2).1 in
    record {
      here =
          returns _ (pf_read_env_page_lem e va (write_disk_page f.frame page s3) lt)
            (page_of-Reads f.frame page s3 e (ppn va) f.nonzero f.here);
      others = λ e1 va1 lt1 other. returns _ (pf_read_env_page_lem e1 va1 s lt1) (
          returns _ (pf_read_env_page_lem e1 va1 (write_disk_page f.frame page s3) lt1) (
            page_of-Alike f.frame page s s3 e1 (ppn va1)
              (f.kept e1 (ppn va1) other ∙ same.frames e1 (ppn va1))
              (λ z. f.own e1 (ppn va1) other (same.frames e1 (ppn va1) ∙ z)) (f.disk ∙ same.disk)));
    }

Same-trans : (s s1 s2 : PageFile) → Same s s1 → Same s1 s2 → Same s s2
Same-trans s s1 s2 v w = record {
  frames = λ e p. w.frames e p ∙ v.frames e p;
  free = w.free ∙ v.free;
  disk = w.disk ∙ v.disk;
}

-- On a valid page file, where kmalloc has two pages and a disk frame is free, pf_add_env_page of an address
-- below KERNEL_BASE succeeds; pf_read_env_page then reads the page that was added, and for every other
-- page and environment it reads what it read before. Valid means that no two pages or page tables share a
-- disk frame, and that none of these frames is free, as in all states that are reached.
pub pf_read-pf_add :
    (e va : ℕ) (page : Page) (s : PageFile) (rest : List Bool) (d : ℕ) (fs : List ℕ)
    → IsPageFile s
    → va < kernel_base
    → s.memory ≡ true ∷ true ∷ rest
    → s.free ≡ d ∷ fs
    → Returns (λ r. (r.0 ≡ success) × Added e va page s r.1) (pf_add_env_page e va page s)
unfolding pf_add_env_page page_frame
pf_read-pf_add e va page s rest d fs v lt memory more =
    let k = ppn va in
    let s1 = (get_disk_page_directory e s).1 in
    let (same1, dir1, (rest1, memory1)) = directory-Same e s rest memory in
    let lt32 : va < 2 ^ 32 = omega (arith, lt) in
    rw (lt→ltb va kernel_base lt) elim (table-Same e va s1 rest1 memory1 dir1 lt32) [
      | returns (b, s2) eq (found, same2, dir2, table2) ↦
          let v2 : IsPageFile s2 =
            subst (Keeps (λ (r : Bool × PageFile). r.1)) eq
              (table-Keeps e va true s1 (directory-IsPageFile e s v)) in
          let same = Same-trans s s1 s2 same1 same2 in
          let f = entry_frame-Framed e k s2 d fs v2 (same.free ∙ more) dir2 table2 in
          rw (eq, found)
            (returns (success, write_disk_page f.frame page (entry_frame e k s2).1)
              (ap (λ o. ok (fill_frame page (o, (entry_frame e k s2).1))) f.found)
              (refl, Framed-Added e va page s s2 same lt32 f))
    ]
