-- ===== src/Examples/Flags.antt =====
-- The flags of a page whose table is in the page file.
use os_memory_management.Base.{refl, arith, some, none, ◌==◌, if◌then◌else◌, Returns}
use os_memory_management.Permissions.{Space, pt_set_page_permissions}
use os_memory_management.Permissions.Entries.{HasEntry, Flagged, pt_set_page_permissions-Changed}

abbrev space : Space
space = record {
  dir = λ i. if i == 512 then 0x5006 else 0;
  memory = λ a. 0;
  virtual_addresses = λ f. 0;
  disk = λ i. if i == 512 then some (λ j. 0x9007) else none;
  temp = λ i. 0;
  count = 1024;
}

space-HasEntry : HasEntry 0x80001000 0x9007 space
space-HasEntry = HasEntry.on_disk (λ j. 0x9007) refl (λ e. omega (arith, e)) (omega arith) refl refl

set_permissions_example :
    Returns
      (Flagged 0x80001000 0x9007 0x40 2 space)
      (pt_set_page_permissions 0x80001000 0x40 2 space)
set_permissions_example =
    pt_set_page_permissions-Changed 0x80001000 0x9007 0x40 2 space (omega arith) (omega arith)
      space-HasEntry
