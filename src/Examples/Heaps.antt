-- ===== src/Examples/Heaps.antt =====
-- lib/uheap.c at concrete heaps.
use os_memory_management.Base.{◌≡◌, refl, inl, [], arith, update, ok, fault, Returns, some}
use os_memory_management.Mmu.{user_heap_start}
use os_memory_management.UserHeap.{
  Heap, malloc, free, firstfit, bestfit, nextfit, place, next_loop, last_run, start_scan,
}
use os_memory_management.UserHeap.Search.{FirstFit, Fit}
use os_memory_management.UserHeap.Occupy.{IsHeap, first_page}
use os_memory_management.UserHeap.Malloc.{
  Allocates, NextFrom, malloc-FirstFit, malloc-Fit, malloc-NextFit,
}
use os_memory_management.UserHeap.Free.{freed, free-freed, free-null}

-- Three pages are in use, from the second page on.
abbrev heap : Heap
heap = record {
  tracker = update (λ p. 0) 1 3;
  addr_of = update (λ p. 0) 1 0x80001000;
  size_of = update (λ p. 0) 1 12288;
  general = user_heap_start;
  calls = [];
}

heap-IsHeap : IsHeap heap
heap-IsHeap = record {
  tracker = record {
    inside = λ p lt. ground arith;
    outside = λ p le. ground arith;
    apart = λ p q lt in_block. ground arith;
  };
  start = first_page (update (λ p. 0) 1 3);
  used_addr = λ p used. ground arith;
  used_size = λ p used. ground arith;
  free_addr = λ p unused. ground arith;
}

malloc-FirstFit_example :
    Returns (Allocates (FirstFit heap.tracker 2) heap 2) (malloc firstfit 0 5000 heap)
malloc-FirstFit_example = malloc-FirstFit 0 5000 heap heap-IsHeap (omega arith) (omega arith)

malloc-Fit_example : Returns (Allocates (Fit heap.tracker 2) heap 2) (malloc bestfit 0 5000 heap)
malloc-Fit_example =
    malloc-Fit bestfit 0 5000 heap (inl refl) heap-IsHeap (omega arith) (omega arith)

malloc-NextFit_example : Returns (Allocates (NextFrom heap 2) heap 2) (malloc nextfit 0 5000 heap)
malloc-NextFit_example = malloc-NextFit 0 5000 heap heap-IsHeap (omega arith) (omega arith)

free-freed_example : (free 0x80001000 heap ≡ ok (freed 1 heap)) × IsHeap (freed 1 heap)
free-freed_example = free-freed heap 1 heap-IsHeap (omega arith)

free-null_example : free 0 heap ≡ fault
free-null_example = free-null heap 0 heap-IsHeap (omega arith) refl

-- NEXT FIT finds five pages behind the allocation.
next_runs : place 20 nextfit 0 20480 heap ≡ ok (some 0x80004000)
unfolding place next_loop start_scan last_run
next_runs = refl
