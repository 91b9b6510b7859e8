-- ===== src/PageFault/Tests.antt =====
-- A write to an address in an area of the process that has no page yet.
use freak_os.Base.{[], ◌∷◌, none}
use freak_os.Vmm.{MemMap}

abbrev one_area : MemMap
one_area = record {
  vma_list = record { vm_start = 2097152; vm_end = 2117632; vm_flags = 3 } ∷ [];
  vma_cache = none;
  vma_count = 1;
}
