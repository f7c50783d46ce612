-- ===== src/Examples/Loads.antt =====
-- The segments of a program, and the mapping of frames, at concrete inputs.
use os_memory_management.Base.{
  ℕ, ◌+◌, ◌*◌, ◌<◌, ◌≡◌, ◌⊎◌, inl, inr, Bool-cases, refl, arith, true, [], ◌∷◌, ◌==◌, if◌then◌else◌,
  update, ok, Returns,
}
use os_memory_management.Mmu.{is_present, ppn}
use os_memory_management.Frames.{Frames, unmap_frame, map_frame}
use os_memory_management.Frames.Counted.{IsCounted, mapped}
use os_memory_management.Frames.Mapping.{Unmapped, unmap_frame-Unmapped}
use os_memory_management.Frames.Remapping.{CanMap, Mapped, map_frame-Mapped}
use os_memory_management.Programs.{Proghdr, Elf, elf_prog_load, elf_magic, foreach_segment}
use os_memory_management.Programs.Segments.{loads, foreach_segment-loads}

-- Three program headers, the second of which is not loaded
abbrev header : ℕ → Proghdr
header i = record {
  p_type = if i == 1 then 6 else elf_prog_load;
  p_offset = 4096 * i;
  p_va = 0x800000 + 4096 * i;
  p_filesz = 100;
  p_memsz = 200;
}

abbrev elf : Elf
elf = record { e_magic = elf_magic; e_entry = 0x800020; e_phnum = 3; ph = header }

foreach_segment_example : foreach_segment 4 elf ≡ ok (loads 3 0 elf)
foreach_segment_example = foreach_segment-loads 4 elf refl (omega arith)

-- The page 2 is mapped to the frame 5, the frame 7 has one other reference, and the frame 3 is free.
abbrev memory : Frames
memory = record {
  free = 3 ∷ [];
  references = update (update (λ f. 0) 5 1) 7 1;
  pte = update (λ q. 0) 2 20487;
  count = 16;
}

abbrev pins : ℕ → ℕ
pins = update (λ f. 0) 7 1

memory-counts : (f : ℕ) → memory.references f ≡ pins f + mapped 4 f memory.pte
unfolding mapped
memory-counts f = ground arith

memory-present :
    (q : ℕ) → (memory.pte q ≡ 0) ⊎ ((is_present (memory.pte q) ≡ true) × (ppn (memory.pte q) < 16))
memory-present q = elim (Bool-cases (q == 2)) [
  | inl same ↦ inr (rw same (refl, omega arith))
  | inr other ↦ inl (rw other refl)
]

memory-IsCounted : IsCounted 4 pins memory
memory-IsCounted = record {
  counts = memory-counts;
  small = λ f. ground arith;
  present = memory-present;
  unused = (refl, tt);
  distinct = omega arith;
}

unmap_example : Returns (Unmapped 4 8192 pins memory) (unmap_frame 8192 memory)
unmap_example = unmap_frame-Unmapped 4 8192 pins memory memory-IsCounted (omega arith)

frame_seven : CanMap 7 6 memory
frame_seven = record {
  exists = omega arith;
  small = omega arith;
  permissions = omega arith;
  not_free = omega arith;
  room = omega arith;
}

map_example : Returns (Mapped 4 7 8192 pins memory) (map_frame 7 8192 6 memory)
map_example = map_frame-Mapped 4 7 8192 6 pins memory memory-IsCounted (omega arith) frame_seven
