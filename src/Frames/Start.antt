-- ===== src/Frames/Start.antt =====
-- initialize_paging of kern/memory_manager.c: which frames are free when the kernel starts. The clearing of
-- the zero page and the list of modified frames are left out, and so is initialize_disk_page_file,
-- which is in another part.
use os_memory_management.Base.{
  ℕ, zero, suc, ◌+◌, ◌-◌, ◌≤◌, ◌<◌, ◌≡◌, ◌≢◌, Bool-cases, inl, inr, refl, ap, ◌∙◌, arith, Bool,
  ◌&&◌, ◌||◌, List, [], ◌∷◌, ◌++◌, All, Avoids, Distinct, ltb, leb, if◌then◌else◌, update,
}
use os_memory_management.Frames.{Frames}
use os_memory_management.Frames.Counted.{IsCounted, mapped}

-- PHYS_IO_MEM and PHYS_EXTENDED_MEM by the page size
abbrev pub io_frame : ℕ
io_frame = 160

abbrev pub extended_frame : ℕ
extended_frame = 256

-- The loop that adds `n` frames from `i` on to the free ones, each at the head
unfoldable pub free_range : ℕ → ℕ → Frames → Frames
free_range zero i s = s
free_range (suc n) i s =
    free_range n (i + 1) (record s { free = i ∷ s.free; references = update s.references i 0 })

-- The loop that gives `n` frames from `i` on a reference
unfoldable pub use_range : ℕ → ℕ → Frames → Frames
use_range zero i s = s
use_range (suc n) i s = use_range n (i + 1) (record s { references = update s.references i 1 })

-- initialize_paging, with `range_end / PAGE_SIZE` for the end of the memory in use
unfoldable pub initialize_paging : ℕ → Frames → Frames
unfolding free_range use_range
initialize_paging used s =
    let s1 = use_range 3 0 (record s { free = [] }) in
    let s2 = free_range (io_frame - 3) 3 s1 in
    let s3 = use_range (extended_frame - io_frame) io_frame s2 in
    let s4 = use_range (used - extended_frame) extended_frame s3 in
    free_range (s4.count - used) used s4

-- The numbers from `i` on, the last of `n` first
abbrev pub down : ℕ → ℕ → List ℕ
down zero i = []
down (suc n) i = (i + n) ∷ down n i

down_next : (n i : ℕ) (rest : List ℕ) → down n (i + 1) ++ i ∷ rest ≡ down (suc n) i ++ rest
down_next zero i rest = ap (λ a. a ∷ rest) (omega arith)
down_next (suc n) i rest =
    let e : i + 1 + n ≡ i + suc n = omega arith in
    ap (λ l. (i + 1 + n) ∷ l) (down_next n i rest) ∙ ap (λ a. a ∷ (down (suc n) i ++ rest)) e

-- Whether a number is one of `n` from `i` on
abbrev within : ℕ → ℕ → ℕ → Bool
within n i f = leb i f && ltb f (i + n)

-- What a loop leaves that sets the references of a range
record Set (v n i : ℕ) (added : List ℕ) (s s' : Frames) : Type 0 where
  refs : (f : ℕ) → s'.references f ≡ (if within n i f then v else s.references f)
  free : s'.free ≡ added ++ s.free
  pte : s'.pte ≡ s.pte
  count : s'.count ≡ s.count

free_range-Set : (n i : ℕ) (s : Frames) → Set 0 n i (down n i) s (free_range n i s)
unfolding free_range
free_range-Set zero i s = record { refs = λ f. ground arith; free = refl; pte = refl; count = refl }
free_range-Set (suc n) i s =
    let h =
      free_range-Set n (i + 1)
        (record s { free = i ∷ s.free; references = update s.references i 0 }) in
    record {
      refs = λ f. ground (arith, h.refs f);
      free = h.free ∙ down_next n i s.free;
      pte = h.pte;
      count = h.count;
    }

use_range-Set : (n i : ℕ) (s : Frames) → Set 1 n i [] s (use_range n i s)
unfolding use_range
use_range-Set zero i s = record { refs = λ f. ground arith; free = refl; pte = refl; count = refl }
use_range-Set (suc n) i s =
    let h = use_range-Set n (i + 1) (record s { references = update s.references i 1 }) in
    record { refs = λ f. ground (arith, h.refs f); free = h.free; pte = h.pte; count = h.count }

-- The frames that keep a reference: the first three, and those from the hole for input and output up to
-- the end of the memory in use.
abbrev pub kernel_pins : ℕ → ℕ → ℕ
kernel_pins used f = if ltb f 3 || (leb io_frame f && ltb f used) then 1 else 0

record Started (used : ℕ) (s s' : Frames) : Type 0 where
  refs : (f : ℕ) → f < s.count → s'.references f ≡ kernel_pins used f
  above : (f : ℕ) → s.count ≤ f → s'.references f ≡ s.references f
  free : s'.free ≡ down (s.count - used) used ++ (down 157 3 ++ [])
  pte : s'.pte ≡ s.pte
  count : s'.count ≡ s.count

-- The references that the five loops set
abbrev chain : ℕ → ℕ → ℕ → ℕ → ℕ
chain used n x f =
    if within n used f
    then 0
    else (if within (used - extended_frame) extended_frame f
        then 1
        else (if within 96 io_frame f
            then 1
            else (if within 157 3 f then 0 else (if within 3 0 f then 1 else x))))

chain_used :
    (used n x f : ℕ) → extended_frame ≤ used → f < used → chain used n x f ≡ kernel_pins used f
chain_used used n x f lo lt = ground (arith, lo, lt)

chain_free :
    (used n x f : ℕ)
    → extended_frame ≤ used
    → used ≤ f
    → f < used + n
    → chain used n x f ≡ kernel_pins used f
chain_free used n x f lo le lt = ground (arith, lo, le, lt)

chain_above : (used n x f : ℕ) → extended_frame ≤ used → used + n ≤ f → chain used n x f ≡ x
chain_above used n x f lo le = ground (arith, lo, le)

started_lem :
    (used : ℕ) (s : Frames)
    → extended_frame ≤ used
    → used ≤ s.count
    → Started used s (initialize_paging used s)
unfolding initialize_paging
started_lem used s lo hi =
    let h1 = use_range-Set 3 0 (record s { free = [] }) in
    let s1 = use_range 3 0 (record s { free = [] }) in
    let h2 = free_range-Set 157 3 s1 in
    let s2 = free_range 157 3 s1 in
    let h3 = use_range-Set 96 io_frame s2 in
    let s3 = use_range 96 io_frame s2 in
    let h4 = use_range-Set (used - extended_frame) extended_frame s3 in
    let s4 = use_range (used - extended_frame) extended_frame s3 in
    let h5 = free_range-Set (s4.count - used) used s4 in
    let counts : s4.count ≡ s.count = h4.count ∙ h3.count ∙ h2.count ∙ h1.count in
    let refs : (f : ℕ)
        → (initialize_paging used s).references f ≡ chain used (s.count - used) (s.references f) f =
      λ f.
        h5.refs f
        ∙ ap (λ n. if within (n - used) used f then 0 else s4.references f) counts
        ∙ ap (λ a. if within (s.count - used) used f then 0 else a)
            (h4.refs f
              ∙ ap (λ a. if within (used - extended_frame) extended_frame f then 1 else a)
                  (h3.refs f
                    ∙ ap (λ a. if within 96 io_frame f then 1 else a)
                        (h2.refs f ∙ ap (λ a. if within 157 3 f then 0 else a) (h1.refs f)))) in
    record {
      refs = λ f lt. elim (Bool-cases (ltb f used)) [
        | inl below ↦
            refs f ∙ chain_used used (s.count - used) (s.references f) f lo (ground (arith, below))
        | inr above ↦
            refs f
            ∙ chain_free used (s.count - used) (s.references f) f lo (ground (arith, above))
                (omega (arith, lt, hi))
      ];
      above = λ f le.
          refs f ∙ chain_above used (s.count - used) (s.references f) f lo (omega (arith, le, hi));
      free =
          h5.free
          ∙ ap (λ n. down (n - used) used ++ s4.free) counts
          ∙ ap (λ l. down (s.count - used) used ++ l)
              (h4.free ∙ h3.free ∙ h2.free ∙ ap (λ l. down 157 3 ++ l) h1.free);
      pte = h5.pte ∙ h4.pte ∙ h3.pte ∙ h2.pte ∙ h1.pte;
      count = h5.count ∙ counts;
    }

mapped_none : (n f : ℕ) (pte : ℕ → ℕ) → ((q : ℕ) → pte q ≡ 0) → mapped n f pte ≡ 0
unfolding mapped
mapped_none zero f pte none_is = refl
mapped_none (suc n) f pte none_is = rw (mapped_none n f pte none_is, none_is n) refl

All-down :
    (P : ℕ → Type 0) (n i : ℕ) (rest : List ℕ)
    → ((f : ℕ) → i ≤ f → f < i + n → P f)
    → All P rest
    → All P (down n i ++ rest)
All-down P zero i rest h hr = hr
All-down P (suc n) i rest h hr = (
  h (i + n) (omega arith) (omega arith),
  All-down P n i rest (λ f le lt. h f le (omega (arith, lt))) hr,
)

Distinct-down :
    (n i : ℕ) (rest : List ℕ)
    → ((m : ℕ) → i ≤ m → Avoids m rest)
    → Distinct rest
    → Distinct (down n i ++ rest)
Distinct-down zero i rest out d = d
Distinct-down (suc n) i rest out d = (
  All-down (λ x. x ≢ i + n) n i rest (λ f le lt e. omega (arith, lt, e))
      (out (i + n) (omega arith)),
  Distinct-down n i rest out d,
)

-- initialize_paging leaves the reference counts of an address space without pages as they should be: the
-- first three frames, the hole for input and output and the memory in use have a reference, and all
-- other frames are free, each in the list once, the highest one first. The memory in use ends at 1 MB at
-- least and within the memory, and no frame above it has references before.
pub initialize_paging-Counted :
    (pages used : ℕ) (s : Frames)
    → extended_frame ≤ used
    → used ≤ s.count
    → ((f : ℕ) → s.count ≤ f → s.references f ≡ 0)
    → ((q : ℕ) → s.pte q ≡ 0)
    → IsCounted pages (kernel_pins used) (initialize_paging used s)
      × ((initialize_paging used s).free ≡ down (s.count - used) used ++ down (io_frame - 3) 3)
initialize_paging-Counted pages used s lo hi outside empty =
    let h = started_lem used s lo hi in
    let s' = initialize_paging used s in
    let refs : (f : ℕ) → s'.references f ≡ kernel_pins used f = λ f.
      elim (Bool-cases (ltb f s.count)) [
        | inl below ↦ h.refs f (ground (arith, below))
        | inr above ↦
            h.above f (ground (arith, above))
            ∙ outside f (ground (arith, above))
            ∙ ground (arith, above, hi, lo)
      ] in
    let entries : (q : ℕ) → s'.pte q ≡ 0 = λ q. ap (λ (p : ℕ → ℕ). p q) h.pte ∙ empty q in
    (
      record {
        counts = λ f. rw (mapped_none pages f s'.pte entries) (refs f ∙ omega arith);
        small = λ f. ground (arith, refs f);
        present = λ q. inl (entries q);
        unused = rw h.free (
            All-down (λ f. s'.references f ≡ 0) (s.count - used) used (down 157 3 ++ [])
              (λ f le lt. ground (arith, refs f, le, lt, lo, hi))
              (All-down (λ f. s'.references f ≡ 0) 157 3 []
                (λ f le lt. ground (arith, refs f, le, lt, lo)) tt));
        distinct = rw h.free (
            Distinct-down (s.count - used) used (down 157 3 ++ [])
              (λ m le.
                All-down (λ x. x ≢ m) 157 3 [] (λ f le' lt e. omega (arith, lt, e, le, lo)) tt)
              (Distinct-down 157 3 [] (λ m le. tt) tt));
      },
      h.free,
    )
