-- ===== src/Examples/Boots.antt =====
-- The kernel's page tables and free frames at concrete inputs.
use os_memory_management.Base.{
  ◌+◌, ◌-◌, ◌≡◌, [], ◌++◌, ◌*◌, ◌%◌, ◌^◌, inl, inr, refl, arith, Returns,
}
use os_memory_management.Mmu.{kernel_base}
use os_memory_management.Boot.{Boot, boot_map_range}
use os_memory_management.Boot.Tables.{IsBoot}
use os_memory_management.Frames.{Frames}
use os_memory_management.Frames.Counted.{IsCounted}
use os_memory_management.Frames.Start.{
  down, initialize_paging, kernel_pins, initialize_paging-Counted,
}
use os_memory_management.Boot.Checked.{Maps, boot_map_range-Maps}

-- Before the first allocation, with 4 MB of memory and the kernel at its first half
abbrev boot : Boot
boot = record {
  free_mem = 0;
  end_of_kernel = kernel_base + 0x200010;
  dir = λ i. 0;
  words = λ a. 0;
  count = 1024;
}

boot-IsBoot : IsBoot boot
boot-IsBoot = record {
  tables = λ i. inl refl;
  apart = λ i j ne t. absurd (ground (arith, t.some_frame));
  start = omega arith;
}

-- Two pages at UENVS, the second of them only in part
map_range_example :
    Returns
      (Maps 2 0xEEC00 0x150 boot)
      (boot_map_range 3 (0xEEC00 * 4096 % 2 ^ 32) 5000 (0x150 * 4096 % 2 ^ 32) 4 boot)
map_range_example =
    boot_map_range-Maps 2 3 0xEEC00 5000 0x150 4 boot (omega arith) (omega arith) (omega arith)
      (omega arith) (omega arith) (omega arith) (omega arith) boot-IsBoot
      (inr (omega arith, omega arith))

-- 300 frames, of which the first 260 are in use but for those below the hole
abbrev frames : Frames
frames = record { free = []; references = λ f. 0; pte = λ q. 0; count = 300 }

paging_example :
    IsCounted 1024 (kernel_pins 260) (initialize_paging 260 frames)
    × ((initialize_paging 260 frames).free ≡ down (300 - 260) 260 ++ down 157 3)
paging_example =
    initialize_paging-Counted 1024 260 frames (omega arith) (omega arith) (λ f le. refl) (λ q. refl)
