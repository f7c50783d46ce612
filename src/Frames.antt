-- ===== src/Frames.antt =====
-- kern/memory_manager.c: physical frames, and their mapping in an address space whose page tables are in
-- memory, as the kernel's are. The entry of a page is a function of the page's number, and a frame is its
-- number; free_frame_list is the sequence of its elements. Page buffering is left out.
pub mod Counted
pub mod Mapping
pub mod Remapping
pub mod Start
use os_memory_management.Base.{
  ℕ, ◌+◌, ◌-◌, ◌*◌, ◌%◌, ◌^◌, Option, none, some, List, [], ◌∷◌, ltb, ◌==◌, if◌then◌else◌, update,
  Run, ok, fault, ◌>>=◌,
}
use os_memory_management.Mmu.{is_present, ppn}

pub record Frames : Type 0 where
  pub free : List ℕ
  pub references : ℕ → ℕ
  pub pte : ℕ → ℕ
  pub count : ℕ

-- allocate_frame: the panic without a free frame is a fault.
unfoldable pub allocate_frame : Frames → Run (ℕ × Frames)
allocate_frame s = elim s.free [
  | [] ↦ fault
  | f ∷ fs ↦ ok (f, record s { free = fs; references = update s.references f 0 })
]

-- free_frame
unfoldable pub free_frame : ℕ → Frames → Frames
free_frame f s = record s { free = f ∷ s.free; references = update s.references f 0 }

-- decrement_references: the count is a uint16.
unfoldable pub decrement_references : ℕ → Frames → Frames
unfolding free_frame
decrement_references f s =
    let n = (s.references f + 2 ^ 16 - 1) % 2 ^ 16 in
    let s1 = record s { references = update s.references f n } in
    if n == 0 then free_frame f s1 else s1

-- get_frame_info, with the panic of to_frame_info
unfoldable pub get_frame_info : ℕ → Frames → Run (Option ℕ)
get_frame_info va s =
    let entry = s.pte (ppn va) in
    if entry == 0 then ok none else if ltb (ppn entry) s.count then ok (some (ppn entry)) else fault

-- unmap_frame
unfoldable pub unmap_frame : ℕ → Frames → Run Frames
unfolding get_frame_info decrement_references
unmap_frame va s = get_frame_info va s >>= (λ o. elim o [
  | none ↦ ok s
  | some f ↦ let s1 = decrement_references f s in ok (record s1 { pte = update s1.pte (ppn va) 0 })
])

-- `CONSTRUCT_ENTRY(to_physical_address(f), perm | PERM_PRESENT)` for permissions below 4096
abbrev pub frame_entry : ℕ → ℕ → ℕ
frame_entry f perm = f * 4096 % 2 ^ 32 + (if is_present perm then perm else perm + 1)

abbrev add_mapping : ℕ → ℕ → ℕ → Frames → Frames
add_mapping f va perm s = record s {
  references = update s.references f ((s.references f + 1) % 2 ^ 16);
  pte = update s.pte (ppn va) (frame_entry f perm);
}

-- map_frame
unfoldable pub map_frame : ℕ → ℕ → ℕ → Frames → Run Frames
unfolding unmap_frame
map_frame f va perm s =
    let entry = s.pte (ppn va) in
    let moved = unmap_frame va s in
    if is_present entry
    then if ppn entry == f then ok s else moved >>= (λ s1. ok (add_mapping f va perm s1))
    else ok (add_mapping f va perm s)
