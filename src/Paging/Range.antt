-- ===== src/Paging/Range.antt =====
-- The operations on ranges of addresses of `kern/mm/page.c`: `unmap_range`, `exit_range`, `copy_range`.
pub mod Rounds
pub mod Unmap
pub mod Shrink
pub mod Exit
use freak_os.Base.{
  ℕ, zero, suc, ◌+◌, ◌-◌, ◌*◌, ◌/◌, ◌%◌, ◌^◌, Bool, true, false, ◌&&◌, not, Option, none, some, ltb,
  leb, ◌==◌, if◌then◌else◌, update,
}
use freak_os.Base.Word.{add32, round_down}
use Prim.Native.Nat.{bit_and}
use freak_os.Pmm.{alloc_pages, free_pages}
use freak_os.Vmm.{is_user_can_access, e_nomem}
use freak_os.Paging.{
  Memory, is_present, frame_of, is_frame, pgd_index, get_pte, pte_remove_page, page_insert,
  set_word,
}

-- `PGDE_MAP_NBYTE`, what one table maps.
abbrev pub pgde_map_nbyte : ℕ
pgde_map_nbyte = 4194304

-- The first address behind the table of `start`.
abbrev pub next_table : ℕ → ℕ
next_table start = round_down (add32 start pgde_map_nbyte) pgde_map_nbyte

-- The tests of a range that the three operations begin with.
abbrev pub is_range : ℕ → ℕ → Bool
is_range start end = (start % 4096 == 0) && (end % 4096 == 0) && is_user_can_access start end

-- One round of `unmap_range`: the address of the next one, and the memory.
pub unmap_step : ℕ → ℕ → Memory → Option (ℕ × Memory)
unmap_step pgdir start m = elim (get_pte pgdir start false m) [
  | none ↦ none
  | some (none, t) ↦ some (next_table start, t)
  | some (some (table, index), t) ↦
      if t.words table index == 0
      then some (add32 start 4096, t)
      else elim (pte_remove_page (table, index) t) [
        | none ↦ none
        | some u ↦ some (add32 start 4096, u)
      ]
]

-- The rounds, `none` when the fuel runs out: `while (start != 0 && start < end)`.
pub rounds : (ℕ → Memory → Option (ℕ × Memory)) → ℕ → ℕ → ℕ → Memory → Option Memory
rounds step zero start end m = none
rounds step (suc fuel) start end m = elim (step start m) [
  | none ↦ none
  | some (next, t) ↦
      let rest = rounds step fuel next end t in
      if not (next == 0) && ltb next end then rest else some t
]

-- A round moves on by a page at least.
pub unmap_range : ℕ → ℕ → ℕ → Memory → Option Memory
unmap_range pgdir start end m =
    let done = rounds (unmap_step pgdir) (end - start) start end m in
    if is_range start end then done else none

-- One round of `exit_range`: the table of `start` is freed.
pub exit_step : ℕ → ℕ → Memory → Option (ℕ × Memory)
exit_step pgdir start m =
    let pde = m.words pgdir (pgd_index start) in
    let next = add32 start pgde_map_nbyte in
    if not (is_present pde)
    then some (next, m)
    else if not (is_frame m (frame_of pde))
    then none
    else elim (free_pages (frame_of pde) 1 m.frames) [
      | none ↦ none
      | some a ↦ some (next, set_word pgdir (pgd_index start) 0 (record m { frames = a }))
    ]

pub exit_range : ℕ → ℕ → ℕ → Memory → Option Memory
exit_range pgdir start end m =
    let first = round_down start pgde_map_nbyte in
    let done = rounds (exit_step pgdir) (end - first) first end m in
    if is_range start end then done else none
