-- ===== src/Examples/Kernel.antt =====
-- kern/kheap.c at a heap of one page.
use mathlib.Core.Path.{subst}
use os_memory_management.Base.{Avoids, ◌≡◌, ◌*◌, ◌/◌, refl, some, [], ◌∷◌, arith, update, Returns}
use os_memory_management.Mmu.{ppn}
use os_memory_management.KernelHeap.{Kheap, kmalloc, kheap_virtual_address, kheap_physical_address}
use os_memory_management.KernelHeap.Inverse.{IsHeap, Allocated, pages_of, kmalloc-IsHeap}
use os_memory_management.KernelHeap.Calls.{kmallocs, kheap_virtual_address-kheap_physical_address}

-- The page 0xF6000 is mapped to the frame 5; three frames are free.
abbrev kheap : Kheap
kheap = record {
  frames = record {
    free = 7 ∷ 9 ∷ 3 ∷ [];
    references = λ f. 0;
    pte = update (λ q. 0) 0xF6000 0x5003;
    count = 100;
  };
  virtual_addresses = update (λ f. 0) 5 0xF6000000;
  blocks = λ i. record { size = 0; va = 0; empty = 0 };
  idx = 1;
  first_free = 0xF6001000;
}

kheap-IsHeap : IsHeap 0xF6000 0xF6001 kheap
kheap-IsHeap = record {
  first = refl;
  fresh = λ q le. ground arith;
  small = omega arith;
  distinct = omega arith;
  inverse = λ q le lt. ground arith;
  flags = λ q le lt. ground arith;
  taken = λ q le lt.
      let e : 0xF6000 ≡ q = omega arith in
      subst (λ p. Avoids (ppn (kheap.frames.pte p)) kheap.frames.free) e (omega arith);
}

kmalloc_example :
    Returns
      (λ r. (r.0 ≡ some (0xF6001 * 4096)) × Allocated (pages_of 5000) 0xF6000 0xF6001 kheap r.1)
      (kmalloc 5000 kheap)
kmalloc_example =
    kmalloc-IsHeap 5000 0xF6000 0xF6001 kheap kheap-IsHeap (omega arith) (omega arith) (omega arith)
      (omega arith)

-- The heap when the kernel starts
abbrev empty_heap : Kheap
empty_heap = record kheap {
  frames = record kheap.frames { pte = λ q. 0 };
  idx = 0;
  first_free = 0xF6000000;
}

virtual_address_example :
    Returns
      (λ k.
        kheap_virtual_address (kheap_physical_address 0xF6001123 k) k ≡ 0xF6001123 / 4096 * 4096)
      (kmallocs (5000 ∷ 10 ∷ []) empty_heap)
virtual_address_example =
    kheap_virtual_address-kheap_physical_address (5000 ∷ 10 ∷ []) 0xF6000 0xF6001123 empty_heap refl
      (λ q le. refl) (omega arith) (omega arith) (omega arith) (omega arith) (omega arith)
      (omega arith) (omega arith) (omega arith)
