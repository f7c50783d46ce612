-- ===== src/KernelHeap/Calls.antt =====
-- Calls of kmalloc of kern/kheap.c from the kernel's start on, and the two conversions of addresses after them.
use mathlib.Core.Path.{subst}
use os_memory_management.Base.{
  ℕ, ◌+◌, ◌*◌, ◌/◌, ◌^◌, ◌≤◌, ◌<◌, ◌≡◌, refl, ap, ◌∙◌, arith, List, [], ◌∷◌, length, All, Distinct,
  Run, ok, ◌>>=◌, Returns, returns,
}
use os_memory_management.Mmu.{ppn, kernel_heap_max}
use os_memory_management.KernelHeap.{
  Kheap, max_blocks, kmalloc, kheap_virtual_address, kheap_physical_address,
}
use os_memory_management.KernelHeap.Inverse.{IsHeap, pages_of, kmalloc-IsHeap}

-- Calls of kmalloc, one after the other, where what they return is not kept.
abbrev pub kmallocs : List ℕ → Kheap → Run Kheap
kmallocs [] k = ok k
kmallocs (size ∷ sizes) k = kmalloc size k >>= (λ r. kmallocs sizes r.1)

-- The pages that they take together
abbrev pub pages_of_all : List ℕ → ℕ
pages_of_all [] = 0
pages_of_all (size ∷ sizes) = pages_of size + pages_of_all sizes

kmallocs-IsHeap :
    (sizes : List ℕ) (lo hi : ℕ) (k : Kheap)
    → IsHeap lo hi k
    → All (λ size. size + 4095 < 2 ^ 32) sizes
    → hi * 4096 + pages_of_all sizes * 4096 < kernel_heap_max
    → pages_of_all sizes ≤ length k.frames.free
    → k.idx + length sizes ≤ max_blocks
    → Returns (IsHeap lo (hi + pages_of_all sizes)) (kmallocs sizes k)
kmallocs-IsHeap [] lo hi k v small room enough lt =
    returns k refl (subst (λ h. IsHeap lo h k) {x = hi} {y = hi + 0} (omega arith) v)
kmallocs-IsHeap (size ∷ sizes) lo hi k v small room enough lt =
    elim (kmalloc-IsHeap size lo hi k v small.0 (omega arith) (omega arith) (omega arith)) [
      | returns r e (a, h) ↦
          rw e
            elim (kmallocs-IsHeap sizes lo (hi + pages_of size) r.1 h.is_heap small.1 (omega arith)
              (omega (arith, h.left)) (omega (arith, h.idx))) [
                | returns k' e' w ↦ returns k' e' (
                    subst (λ n. IsHeap lo n k') {x = hi + pages_of size + pages_of_all sizes}
                      {y = hi + pages_of_all (size ∷ sizes)} (omega arith) w)
              ]
    ]

-- On a valid heap the two conversions of addresses are inverse.
IsHeap-round_trip :
    (lo hi va : ℕ) (k : Kheap)
    → IsHeap lo hi k
    → lo * 4096 ≤ va
    → va < hi * 4096
    → kheap_virtual_address (kheap_physical_address va k) k ≡ va / 4096 * 4096
unfolding kheap_virtual_address kheap_physical_address
IsHeap-round_trip lo hi va k v le lt =
    ap k.virtual_addresses {x = ppn (ppn (k.frames.pte (ppn va)) * 4096)}
      {y = ppn (k.frames.pte (ppn va))} (omega arith)
    ∙ v.inverse (ppn va) (omega arith) (omega arith)

-- From a kernel heap without pages, any number of calls of kmalloc, one after the other, end, and then
-- kheap_virtual_address takes the physical address of every address of the blocks back to the start of its
-- page. No page from the heap's start on is mapped before, the free frames are distinct and below
-- 2^20, and there are enough of them; the sizes do not wrap, the blocks end below KERNEL_HEAP_MAX, and
-- allocatedHAddresses has room for them.
pub kheap_virtual_address-kheap_physical_address :
    (sizes : List ℕ) (lo va : ℕ) (k : Kheap)
    → k.first_free ≡ lo * 4096
    → ((q : ℕ) → lo ≤ q → k.frames.pte q ≡ 0)
    → All (λ f. f < 2 ^ 20) k.frames.free
    → Distinct k.frames.free
    → All (λ size. size + 4095 < 2 ^ 32) sizes
    → lo * 4096 + pages_of_all sizes * 4096 < kernel_heap_max
    → pages_of_all sizes ≤ length k.frames.free
    → k.idx + length sizes ≤ max_blocks
    → lo * 4096 ≤ va
    → va < (lo + pages_of_all sizes) * 4096
    → Returns
        (λ k'. kheap_virtual_address (kheap_physical_address va k') k' ≡ va / 4096 * 4096)
        (kmallocs sizes k)
kheap_virtual_address-kheap_physical_address sizes lo va k first fresh small distinct sizes_small
      room enough idx le lt =
    let empty : IsHeap lo lo k = record {
      first = first;
      fresh = fresh;
      small = small;
      distinct = distinct;
      inverse = λ q from to. absurd (omega (arith, from, to));
      flags = λ q from to. absurd (omega (arith, from, to));
      taken = λ q from to. absurd (omega (arith, from, to));
    } in
    elim (kmallocs-IsHeap sizes lo lo k empty sizes_small room enough idx) [
      | returns k' e v ↦ returns k' e (IsHeap-round_trip lo (lo + pages_of_all sizes) va k' v le lt)
    ]
