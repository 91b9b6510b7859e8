-- ===== src/Vmm.antt =====
-- The memory map of a process: `kern/mm/vmm.c`, with the address ranges of `kern/include/mm.h`.
--
-- A `VirtMemArea_t` is written once, when it is made, so that a pointer to it is its value here. The
-- list `vma_list` is the sequence of its areas, which `LinkedList` relates to the pointers. A `panic`
-- is `none`.
pub mod Areas
pub mod Map
pub mod Check
pub mod Copy
mod Tests
use freak_os.Base.{
  ℕ, zero, suc, ◌+◌, ◌*◌, ◌/◌, ◌%◌, ◌^◌, Bool, true, false, ◌&&◌, ◌||◌, not, List, [], ◌∷◌, Option,
  none, some, ltb, leb, ◌==◌, if◌then◌else◌,
}
use freak_os.Base.Bits.{get_bit}
use freak_os.Base.Word.{add32, round_down, round_up, pg_size}
use mathlib.Core.Option as Opt

pub record Vma : Type 0 where
  pub vm_start : ℕ
  pub vm_end : ℕ
  pub vm_flags : ℕ

pub record MemMap : Type 0 where
  pub vma_list : List Vma
  pub vma_cache : Option Vma
  pub vma_count : ℕ

abbrev pub kernel_base : ℕ
kernel_base = 0xC000_0000

abbrev pub kernel_top : ℕ
kernel_top = 0xF800_0000

abbrev pub user_base : ℕ
user_base = 0x0020_0000

abbrev pub user_top : ℕ
user_top = 0xB000_0000

pub is_kernel_can_access : ℕ → ℕ → Bool
is_kernel_can_access start end = leb kernel_base start && ltb start end && leb end kernel_top

unfoldable pub is_user_can_access : ℕ → ℕ → Bool
is_user_can_access start end = leb user_base start && ltb start end && leb end user_top

-- `vm_start <= vaddr && vm_end > vaddr`.
abbrev pub holds : Vma → ℕ → Bool
holds vma vaddr = leb vma.vm_start vaddr && ltb vaddr vma.vm_end

-- The loop of `find_vma`.
pub scan : List Vma → ℕ → Option Vma
scan [] vaddr = none
scan (vma ∷ vmas) vaddr = if holds vma vaddr then some vma else scan vmas vaddr

abbrev pub cache_hit : Option Vma → ℕ → Bool
cache_hit none vaddr = false
cache_hit (some vma) vaddr = holds vma vaddr

-- The area that is found is kept in the cache.
abbrev pub find_result : MemMap → Option Vma → Option Vma × MemMap
find_result mm none = (none, mm)
find_result mm (some vma) = (some vma, record mm { vma_cache = some vma })

pub find_vma : MemMap → ℕ → Option Vma × MemMap
find_vma mm vaddr =
    if cache_hit mm.vma_cache vaddr
    then (mm.vma_cache, mm)
    else find_result mm (scan mm.vma_list vaddr)

-- Whether `check_vma_overlap` returns.
pub check_vma_overlap : Vma → Vma → Bool
check_vma_overlap prev next =
    ltb prev.vm_start prev.vm_end && leb prev.vm_end next.vm_start && ltb next.vm_start next.vm_end

abbrev pub check_prev : Option Vma → Vma → Bool
check_prev none vma = true
check_prev (some prev) vma = check_vma_overlap prev vma

-- The walk of `insert_vma` with `lp_prev` in `prev`, and the insertion behind it.
pub insert_behind : Option Vma → Vma → List Vma → Option (List Vma)
insert_behind prev vma [] = if check_prev prev vma then some (vma ∷ []) else none
insert_behind prev vma (x ∷ xs) =
    let rest = insert_behind (some x) vma xs in
    if ltb vma.vm_start x.vm_start
    then (if check_prev prev vma && check_vma_overlap vma x then some (vma ∷ x ∷ xs) else none)
    else Opt.map (λ ys. x ∷ ys) rest

pub insert_vma : MemMap → Vma → Option MemMap
insert_vma mm vma =
    if leb vma.vm_end vma.vm_start
    then none
    else Opt.map (λ vmas. record mm { vma_list = vmas; vma_count = mm.vma_count + 1 })
        (insert_behind none vma mm.vma_list)

abbrev pub e_inval : ℕ
e_inval = 11

abbrev pub e_nomem : ℕ
e_nomem = 12

-- `vma_create`, which may get no memory, and the insertion.
pub map_new : MemMap → Vma → Bool → Option (ℕ × MemMap)
map_new mm new got = if got then Opt.map (λ m. (0, m)) (insert_vma mm new) else some (e_nomem, mm)

-- What follows the search for an area that holds the start.
pub map_found : Option Vma → MemMap → Vma → Bool → Option (ℕ × MemMap)
map_found (some found) mm new got =
    if ltb found.vm_start new.vm_end then some (e_inval, mm) else map_new mm new got
map_found none mm new got = map_new mm new got

-- The result is the code, negated in C where it is not 0. The flag says whether `vma_create` got
-- its memory.
pub mm_map : MemMap → ℕ → ℕ → ℕ → Bool → Option (ℕ × MemMap)
mm_map mm start_vaddr len vm_flags got =
    let start = round_down start_vaddr pg_size in
    let end = round_up (add32 start_vaddr len) pg_size in
    let (vma, mm') = find_vma mm start in
    let new : Vma = record { vm_start = start; vm_end = end; vm_flags = vm_flags } in
    if not (is_user_can_access start end) then some (e_inval, mm) else map_found vma mm' new got

-- `VMM_READ`, `VMM_WRITE` and `VMM_STACK` are the bits 0, 1 and 3.
abbrev pub vmm_read_bit : ℕ
vmm_read_bit = 0

abbrev pub vmm_write_bit : ℕ
vmm_write_bit = 1

abbrev pub vmm_stack_bit : ℕ
vmm_stack_bit = 3

-- Whether `checkUserMem` accepts the address `start` of the area that holds it.
pub permits : Vma → ℕ → Bool → Bool
permits vma start write =
    leb vma.vm_start start
    && not (get_bit vma.vm_flags (if write then vmm_write_bit else vmm_read_bit) == 0)
    && not (
        write
        && not (get_bit vma.vm_flags vmm_stack_bit == 0)
        && ltb start (add32 vma.vm_start pg_size))

-- The body of the loop of `checkUserMem` on what `find_vma` gave; `go_on` is the next round.
pub check_area :
    Option Vma → MemMap → ℕ → Bool → (ℕ → Option (Bool × MemMap)) → Option (Bool × MemMap)
check_area none mm start write go_on = some (false, mm)
check_area (some v) mm start write go_on =
    let rest = go_on v.vm_end in if permits v start write then rest else some (false, mm)

-- The loop, `while (start < len)`; `none` when the fuel runs out.
pub check_areas : ℕ → MemMap → ℕ → ℕ → Bool → Option (Bool × MemMap)
check_areas zero mm start len write = none
check_areas (suc fuel) mm start len write =
    let (vma, mm') = find_vma mm start in
    if ltb start len
    then check_area vma mm' start write (λ end. check_areas fuel mm' end len write)
    else some (true, mm)

-- `none` for `mm` is the NULL of a kernel thread.
pub check_user_mem : Option MemMap → ℕ → ℕ → Bool → Option (Bool × Option MemMap)
check_user_mem none addr len write = some (is_kernel_can_access addr (add32 addr len), none)
check_user_mem (some mm) addr len write =
    let checked = check_areas (len + 1) mm addr len write in
    if not (is_user_can_access addr (add32 addr len))
    then some (false, some mm)
    else Opt.map (λ (ok, mm'). (ok, some mm')) checked
