-- ===== src/PageFault.antt =====
-- The handling of page faults: `do_pgfault` of `kern/mm/page_fault.c`.
--
-- The directory of the process, `mm->pgdir`, is an argument. What the handler prints is left out.
pub mod Handle
mod Tests
use freak_os.Base.{
  ℕ, ◌+◌, ◌%◌, ◌/◌, Bool, true, false, ◌||◌, ◌&&◌, not, Option, none, some, ltb, ◌==◌,
  if◌then◌else◌,
}
use freak_os.Base.Bits.{get_bit}
use freak_os.Base.Word.{round_down, pg_size}
use Prim.Native.Nat.{bit_or}
use freak_os.Vmm.{Vma, MemMap, find_vma, e_inval, e_nomem, vmm_read_bit, vmm_write_bit}
use freak_os.Paging.{Memory, is_present, get_pte, pgdir_alloc_page}

-- `VMM_EXEC` is the bit 2.
abbrev pub vmm_exec_bit : ℕ
vmm_exec_bit = 2

abbrev pub has_flag : Vma → ℕ → Bool
has_flag vma flag = not (get_bit vma.vm_flags flag == 0)

-- The switch on the kind of the fault: bit 0 of the code says that the page was present, bit 1 that it was
-- written.
pub allows : ℕ → Vma → Bool
allows error_code vma =
    let kind = error_code % 4 in
    if kind == 1
    then false
    else if kind == 0
    then has_flag vma vmm_read_bit || has_flag vma vmm_exec_bit
    else has_flag vma vmm_write_bit

-- `PTE_PAGE_USER`, and `PTE_PAGE_WRITEABLE` where the area can be written.
pub perm_of : Vma → ℕ
perm_of vma = if has_flag vma vmm_write_bit then bit_or 4 2 else 4

-- The result is the code, negated in C where it is not 0; a panic is `none`.
pub fill : ℕ → ℕ → ℕ → Memory → Option (ℕ × Memory)
fill pgdir addr perm m = elim (get_pte pgdir addr true m) [
  | none ↦ none
  | some (none, t) ↦ some (e_nomem, t)
  | some (some (table, index), t) ↦
      if t.words table index == 0
      then elim (pgdir_alloc_page pgdir addr perm t) [
        | none ↦ none
        | some (none, u) ↦ some (e_nomem, u)
        | some (some page, u) ↦ some (0, u)
      ]
      else if is_present (t.words table index)
      then none
      else some (e_nomem, t)
]

-- What follows `find_vma`.
pub fault_in : Option Vma → ℕ → ℕ → ℕ → Memory → Option (ℕ × Memory)
fault_in none pgdir error_code addr m = some (e_inval, m)
fault_in (some vma) pgdir error_code addr m =
    if ltb addr vma.vm_start || not (allows error_code vma)
    then some (e_inval, m)
    else fill pgdir (round_down addr pg_size) (perm_of vma) m

-- The handler leaves the map with the area that was found in its cache.
abbrev pub with_map : MemMap → Option (ℕ × Memory) → Option (ℕ × MemMap × Memory)
with_map mm none = none
with_map mm (some (ret, t)) = some (ret, mm, t)

pub do_pgfault : ℕ → MemMap → ℕ → ℕ → Memory → Option (ℕ × MemMap × Memory)
do_pgfault pgdir mm error_code addr m =
    let (vma, mm') = find_vma mm addr in with_map mm' (fault_in vma pgdir error_code addr m)
