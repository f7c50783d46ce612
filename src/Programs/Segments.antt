-- ===== src/Programs/Segments.antt =====
-- The segments that PROGRAM_SEGMENT_FOREACH of kern/user_environment.c visits.
use os_memory_management.Base.{
  ℕ, zero, suc, ◌+◌, ◌<◌, ◌≡◌, refl, arith, inl, inr, true, false, Bool-cases, Option, none, some,
  List, [], ◌∷◌, ltb, lt→ltb, ◌==◌, if◌then◌else◌, ok, Run, ◌>>=◌,
}
use os_memory_management.Programs.{
  Elf, ProgramSegment, elf_magic, elf_prog_load, next_load, segment_of, segment_from,
  program_segment_first, program_segment_next, visit_segments, foreach_segment,
}

-- The segments to load among `n` program headers from `i` on
abbrev pub loads : ℕ → ℕ → Elf → List ProgramSegment
loads zero i elf = []
loads (suc n) i elf =
    if (elf.ph i).p_type == elf_prog_load
    then segment_of i elf ∷ loads n (i + 1) elf
    else loads n (i + 1) elf

-- The first of them, and the others
abbrev first_load : ℕ → ℕ → Elf → Option ProgramSegment
first_load zero i elf = none
first_load (suc n) i elf =
    if (elf.ph i).p_type == elf_prog_load then some (segment_of i elf) else first_load n (i + 1) elf

-- A step of the search
stops :
    (fuel i : ℕ) (elf : Elf)
    → ((elf.ph i).p_type == elf_prog_load) ≡ true
    → next_load (suc fuel) i elf ≡ ok i
unfolding next_load
stops fuel i elf t = rw t refl

ends : (fuel i : ℕ) (elf : Elf) → ltb i elf.e_phnum ≡ false → next_load (suc fuel) i elf ≡ ok i
unfolding next_load
ends fuel i elf past = elim (Bool-cases ((elf.ph i).p_type == elf_prog_load)) [
  | inl t ↦ rw t refl
  | inr t ↦ rw (t, past) refl
]

goes_on :
    (fuel i : ℕ) (elf : Elf)
    → ((elf.ph i).p_type == elf_prog_load) ≡ false
    → ltb i elf.e_phnum ≡ true
    → next_load (suc fuel) i elf ≡ next_load fuel (i + 1) elf
unfolding next_load
goes_on fuel i elf t inside = rw (t, inside) refl

-- What is done with the index that the search finds
abbrev found : Elf → Run ℕ → Run (Option ProgramSegment)
found elf r = r >>= (λ i. ok (if ltb i elf.e_phnum then some (segment_of i elf) else none))

found_lem :
    (n fuel i : ℕ) (elf : Elf)
    → i + n ≡ elf.e_phnum
    → n < fuel
    → found elf (next_load fuel i elf) ≡ ok (first_load n i elf)
found_lem n zero i elf end enough = absurd (omega arith)
found_lem zero (suc fuel) i elf end enough =
    let past : ltb i elf.e_phnum ≡ false = ground (arith, end) in
    rw (ends fuel i elf past) (rw past refl)
found_lem (suc n) (suc fuel) i elf end enough =
    let inside : ltb i elf.e_phnum ≡ true = lt→ltb _ _ (omega (arith, end)) in
    elim (Bool-cases ((elf.ph i).p_type == elf_prog_load)) [
      | inl t ↦ rw (stops fuel i elf t, t) (rw inside refl)
      | inr t ↦
          rw (goes_on fuel i elf t inside, t)
            (found_lem n fuel (i + 1) elf (omega (arith, end)) (omega arith))
    ]

segment_from_lem :
    (n fuel i : ℕ) (elf : Elf)
    → elf.e_magic ≡ elf_magic
    → i + n ≡ elf.e_phnum
    → n < fuel
    → segment_from fuel i elf ≡ ok (first_load n i elf)
unfolding segment_from
segment_from_lem n fuel i elf magic end enough =
    let test : (elf.e_magic == elf_magic) ≡ true = ground (arith, magic) in
    rw test (found_lem n fuel i elf end enough)

next_is :
    (elf : Elf) (i fuel : ℕ)
    → program_segment_next fuel (segment_of i elf) elf ≡ segment_from fuel (i + 1) elf
unfolding program_segment_next
next_is elf i fuel = refl

visit_lem :
    (n fuel i : ℕ) (elf : Elf)
    → elf.e_magic ≡ elf_magic
    → i + n ≡ elf.e_phnum
    → n < fuel
    → visit_segments fuel (first_load n i elf) elf ≡ ok (loads n i elf)
unfolding visit_segments
visit_lem n zero i elf magic end enough = absurd (omega arith)
visit_lem zero (suc fuel) i elf magic end enough = refl
visit_lem (suc n) (suc fuel) i elf magic end enough =
    let after =
      segment_from_lem n (elf.e_phnum + 1) (i + 1) elf magic (omega (arith, end))
        (omega (arith, end)) in
    elim (Bool-cases ((elf.ph i).p_type == elf_prog_load)) [
      | inl t ↦
          rw
            (
              t,
              next_is elf i (elf.e_phnum + 1),
              after,
              visit_lem n fuel (i + 1) elf magic (omega (arith, end)) (omega arith),
            )
            refl
      | inr t ↦ rw t (visit_lem n (suc fuel) (i + 1) elf magic (omega (arith, end)) (omega arith))
    ]

-- PROGRAM_SEGMENT_FOREACH ends, and visits the segments of all program headers to load, each once and in
-- the order of the table. The program has the magic number of ELF.
pub foreach_segment-loads :
    (fuel : ℕ) (elf : Elf)
    → elf.e_magic ≡ elf_magic
    → elf.e_phnum < fuel
    → foreach_segment fuel elf ≡ ok (loads elf.e_phnum 0 elf)
unfolding foreach_segment program_segment_first
foreach_segment-loads fuel elf magic enough =
    let first =
      segment_from_lem elf.e_phnum (elf.e_phnum + 1) 0 elf magic (omega arith) (omega arith) in
    rw first (visit_lem elf.e_phnum fuel 0 elf magic (omega arith) enough)
