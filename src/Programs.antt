-- ===== src/Programs.antt =====
-- kern/user_environment.c: the segments of a program in the ELF format, and the table of user programs. The
-- program headers are functions of their index, so that an index at the end of the table can be read, as the
-- loops do; a pointer into the program is the offset from its start.
pub mod Segments
use os_memory_management.Base.{
  ℕ, zero, suc, ◌+◌, ◌-◌, ◌^◌, Bool, ◌&&◌, not, Option, none, some, List, [], ◌∷◌, ltb, ◌==◌,
  if◌then◌else◌, Run, ok, fault, out_of_fuel, ◌>>=◌,
}

-- `struct Proghdr`, of which these members are read
pub record Proghdr : Type 0 where
  pub p_type : ℕ
  pub p_offset : ℕ
  pub p_va : ℕ
  pub p_filesz : ℕ
  pub p_memsz : ℕ

-- `struct Elf` and the table of its program headers
pub record Elf : Type 0 where
  pub e_magic : ℕ
  pub e_entry : ℕ
  pub e_phnum : ℕ
  pub ph : ℕ → Proghdr

-- `ELF_MAGIC` and `ELF_PROG_LOAD`
abbrev pub elf_magic : ℕ
elf_magic = 0x464C457F

abbrev pub elf_prog_load : ℕ
elf_prog_load = 1

-- `struct ProgramSegment`
pub record ProgramSegment : Type 0 where
  pub ptr_start : ℕ
  pub size_in_file : ℕ
  pub size_in_memory : ℕ
  pub virtual_address : ℕ
  pub segment_id : ℕ

-- The loop that looks for a header of a segment to load, from `id` on
unfoldable pub next_load : ℕ → ℕ → Elf → Run ℕ
next_load zero id elf = out_of_fuel
next_load (suc fuel) id elf =
    let rest = next_load fuel (id + 1) elf in
    if not ((elf.ph id).p_type == elf_prog_load) && ltb id elf.e_phnum then rest else ok id

abbrev pub segment_of : ℕ → Elf → ProgramSegment
segment_of id elf = record {
  ptr_start = (elf.ph id).p_offset;
  size_in_file = (elf.ph id).p_filesz;
  size_in_memory = (elf.ph id).p_memsz;
  virtual_address = (elf.ph id).p_va;
  segment_id = id;
}

-- The common part of the two functions below, from the index on
unfoldable pub segment_from : ℕ → ℕ → Elf → Run (Option ProgramSegment)
segment_from fuel id elf =
    if elf.e_magic == elf_magic
    then next_load fuel id elf
      >>= (λ i. ok (if ltb i elf.e_phnum then some (segment_of i elf) else none))
    else fault

-- PROGRAM_SEGMENT_FIRST: the identifier -1 of the result is `none`.
unfoldable pub program_segment_first : ℕ → Elf → Run (Option ProgramSegment)
unfolding segment_from
program_segment_first fuel elf = segment_from fuel 0 elf

-- PROGRAM_SEGMENT_NEXT
unfoldable pub program_segment_next : ℕ → ProgramSegment → Elf → Run (Option ProgramSegment)
unfolding segment_from
program_segment_next fuel seg elf = segment_from fuel (seg.segment_id + 1) elf

-- The segments that PROGRAM_SEGMENT_FOREACH visits, from one of them on
unfoldable pub visit_segments : ℕ → Option ProgramSegment → Elf → Run (List ProgramSegment)
visit_segments zero seg elf = out_of_fuel
visit_segments (suc fuel) none elf = ok []
visit_segments (suc fuel) (some seg) elf =
    program_segment_next (elf.e_phnum + 1) seg elf
    >>= (λ next. visit_segments fuel next elf >>= (λ rest. ok (seg ∷ rest)))

-- PROGRAM_SEGMENT_FOREACH
unfoldable pub foreach_segment : ℕ → Elf → Run (List ProgramSegment)
foreach_segment fuel elf =
    program_segment_first (elf.e_phnum + 1) elf >>= (λ first. visit_segments fuel first elf)

-- set_environment_entry_point: what tf_eip is set to
unfoldable pub entry_point : Elf → Run ℕ
entry_point elf = if elf.e_magic == elf_magic then ok elf.e_entry else fault

-- get_user_program_info: the index of the first of `n` programs from `i` on whose name is the one that is
-- looked for; `matches` is the comparison of strcmp with 0.
unfoldable pub get_user_program_info : ℕ → ℕ → (ℕ → Bool) → Option ℕ
get_user_program_info zero i matches = none
get_user_program_info (suc n) i matches =
    let rest = get_user_program_info n (i + 1) matches in if matches i then some i else rest
