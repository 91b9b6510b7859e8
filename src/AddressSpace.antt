-- ===== src/AddressSpace.antt =====
-- A process's areas together with its page tables: `exit_mmap` of `kern/mm/vmm.c`.
--
-- The directory of the map is an argument. A panic is `none`.
pub mod Teardown
pub mod Tests
use freak_os.Base.{ℕ, List, [], ◌∷◌, Option, none, some, ◌==◌, if◌then◌else◌}
use freak_os.Vmm.{Vma}
use freak_os.Paging.{Memory}
use freak_os.Paging.Range.{unmap_range, exit_range}

-- The first loop of `exit_mmap`.
pub unmap_areas : ℕ → List Vma → Memory → Option Memory
unmap_areas pgdir [] m = some m
unmap_areas pgdir (vma ∷ vmas) m = elim (unmap_range pgdir vma.vm_start vma.vm_end m) [
  | none ↦ none
  | some t ↦ unmap_areas pgdir vmas t
]

-- The second loop.
pub exit_areas : ℕ → List Vma → Memory → Option Memory
exit_areas pgdir [] m = some m
exit_areas pgdir (vma ∷ vmas) m = elim (exit_range pgdir vma.vm_start vma.vm_end m) [
  | none ↦ none
  | some t ↦ exit_areas pgdir vmas t
]

-- The directory, the count of the processes that share the map, and its areas.
pub exit_mmap : ℕ → ℕ → List Vma → Memory → Option Memory
exit_mmap pgdir mm_count vmas m =
    let done : Option Memory = elim (unmap_areas pgdir vmas m) [
      | none ↦ none
      | some t ↦ exit_areas pgdir vmas t
    ] in
    if mm_count == 0 then done else none
