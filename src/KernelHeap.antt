-- ===== src/KernelHeap.antt =====
-- kern/kheap.c: the kernel's heap, which maps new frames behind all pages it has mapped before, and the
-- table from frames back to the heap's addresses.
pub mod Inverse
pub mod Calls
use os_memory_management.Base.{
  ℕ, zero, suc, ◌+◌, ◌-◌, ◌*◌, ◌/◌, ◌%◌, ◌^◌, Option, none, some, ltb, leb, ◌==◌, if◌then◌else◌,
  update, Run, ok, fault, ◌>>=◌,
}
use os_memory_management.Mmu.{add32, sub32, mul32, ppn, kernel_heap_max}
use os_memory_management.Frames.{Frames, allocate_frame, map_frame, unmap_frame}

-- `struct Size_Address_KHeap`
pub record Block : Type 0 where
  pub size : ℕ
  pub va : ℕ
  pub empty : ℕ

-- The globals: allocatedHAddresses with idx, virtualAddresses and firstFreeVAInKHeap.
pub record Kheap : Type 0 where
  pub frames : Frames
  pub virtual_addresses : ℕ → ℕ
  pub blocks : ℕ → Block
  pub idx : ℕ
  pub first_free : ℕ

-- `(KERNEL_HEAP_MAX-KERNEL_HEAP_START+1)/PAGE_SIZE`
abbrev pub max_blocks : ℕ
max_blocks = 40959

-- One round of the loop of kmalloc.
unfoldable pub grow_heap : Kheap → Run Kheap
unfolding allocate_frame map_frame
grow_heap k = allocate_frame k.frames >>= (λ (f, s). map_frame f k.first_free 3 s >>= (λ s1.
    ok (record k {
      frames = s1;
      virtual_addresses = update k.virtual_addresses f k.first_free;
      first_free = add32 k.first_free 4096;
    })))

-- The loop, for `n` pages.
unfoldable pub grow_pages : ℕ → Kheap → Run Kheap
unfolding grow_heap
grow_pages zero k = ok k
grow_pages (suc n) k = grow_heap k >>= (λ k1. grow_pages n k1)

-- The entry of the new block in allocatedHAddresses.
unfoldable pub add_block : ℕ → ℕ → Kheap → Run Kheap
add_block pages va k =
    let block : Block = record { size = pages; va = va; empty = 0 } in
    if ltb k.idx max_blocks
    then ok (record k { blocks = update k.blocks k.idx block; idx = k.idx + 1 })
    else fault

-- kmalloc
unfoldable pub kmalloc : ℕ → Kheap → Run (Option ℕ × Kheap)
unfolding grow_pages add_block
kmalloc size k =
    let pages = (size + 4095) % 2 ^ 32 / 4096 in
    let grown = grow_pages pages k >>= (λ k1. add_block pages k.first_free k1) in
    if leb (sub32 kernel_heap_max (mul32 pages 4096)) k.first_free
    then ok (none, k)
    else grown >>= (λ k2. ok (some k.first_free, k2))

-- kheap_virtual_address
unfoldable pub kheap_virtual_address : ℕ → Kheap → ℕ
kheap_virtual_address pa k = k.virtual_addresses (ppn pa)

-- kheap_physical_address
unfoldable pub kheap_physical_address : ℕ → Kheap → ℕ
kheap_physical_address va k = ppn (k.frames.pte (ppn va)) * 4096

-- The loop of kfree that looks for the block, with `n` entries left from `i` on.
unfoldable pub find_block : ℕ → ℕ → ℕ → (ℕ → Block) → Option ℕ
find_block zero i va blocks = none
find_block (suc n) i va blocks =
    let rest = find_block n (i + 1) va blocks in if (blocks i).va == va then some i else rest

-- The loop of kfree over the block's pages.
unfoldable pub release : ℕ → ℕ → Kheap → Run Kheap
unfolding kheap_physical_address unmap_frame
release zero va k = ok k
release (suc n) va k =
    let f = ppn (kheap_physical_address va k) in
    unmap_frame va k.frames >>= (λ s.
      release n (add32 va 4096)
        (record k { frames = s; virtual_addresses = update k.virtual_addresses f 0 }))

-- kfree: the index is not assigned where no block has the address, and its use is a fault.
unfoldable pub kfree : ℕ → Kheap → Run Kheap
unfolding find_block release
kfree va k = elim (find_block max_blocks 0 va k.blocks) [
  | none ↦ fault
  | some i ↦ release (k.blocks i).size va k >>= (λ k1.
      ok (record k1 { blocks = update k1.blocks i (record (k1.blocks i) { empty = 1 }) }))
]
