-- ===== src/Paging.antt =====
-- Page directories and page tables: `kern/mm/page.c`, with the macros of `kern/include/mm.h` and the
-- conversions of `kern/include/pmm.h`.
--
-- A directory and a table are page frames, and `words` is the physical memory by frame and word, so that
-- a table is found through the entry of the directory, as in C, and a pointer to an entry is its frame and
-- its index. A `panic` or a failed `assert` is `none`. The translation buffer, which the code clears for
-- each entry that it changes, is not modelled.
pub mod Entry
pub mod Tree
pub mod Grow
pub mod Count
pub mod Space
pub mod Lookup
pub mod Drop
pub mod Change
pub mod Replace
pub mod Insert
pub mod Remove
pub mod Fresh
pub mod Range
pub mod Tests
use freak_os.Base.{
  ℕ, zero, suc, ◌+◌, ◌-◌, ◌*◌, ◌/◌, ◌%◌, ◌^◌, Bool, true, false, ◌||◌, ◌&&◌, not, Option, none,
  some, ltb, leb, ◌==◌, if◌then◌else◌, update,
}
use freak_os.Base.Word.{add32, sub32, pg_size, round_down}
use freak_os.Base.Bits.{get_bit}
use Prim.Native.Nat.{bit_or, bit_and}
use freak_os.Pmm.{Area, alloc_pages, free_pages}
use freak_os.Vmm.{MemMap, is_user_can_access, e_nomem}

pub record Memory : Type 0 where
  pub frames : Area
  pub words : ℕ → ℕ → ℕ
  pub page_count : ℕ

abbrev pub pgd_index : ℕ → ℕ
pgd_index va = va / 4194304 % 1024

abbrev pub pte_index : ℕ → ℕ
pte_index va = va / 4096 % 1024

-- `PTE_PAGE_PERSENT`, the bit 0 of an entry.
abbrev pub is_present : ℕ → Bool
is_present e = not (e % 2 == 0)

-- The frame that an entry names, `PTE_ADDR(e) >> 12`.
abbrev pub frame_of : ℕ → ℕ
frame_of e = e / 4096

-- `pa2page` and `pa2kva` panic on a frame above `PageCount`.
abbrev pub is_frame : Memory → ℕ → Bool
is_frame m f = leb f m.page_count

-- `page2pa`.
abbrev pub page2pa : ℕ → ℕ
page2pa page = page * 4096 % 2 ^ 32

abbrev pub set_page_ref : ℕ → ℕ → Memory → Memory
set_page_ref page v m = record m { frames = record m.frames { ref = update m.frames.ref page v } }

abbrev pub page_ref_inc : ℕ → Memory → Memory
page_ref_inc page m = set_page_ref page (add32 (m.frames.ref page) 1) m

abbrev pub page_ref_dec : ℕ → Memory → Memory
page_ref_dec page m = set_page_ref page (sub32 (m.frames.ref page) 1) m

-- `page_ref(page) <= 0`, for the `int` that it returns.
abbrev pub is_unused : ℕ → Memory → Bool
is_unused page m = (m.frames.ref page == 0) || leb (2 ^ 31) (m.frames.ref page)

abbrev pub set_word : ℕ → ℕ → ℕ → Memory → Memory
set_word frame index e m = record m {
  words = update m.words frame (update (m.words frame) index e);
}

-- The end of `get_pte`: the entry in the table that `pde` names.
pub entry_in : ℕ → ℕ → Memory → Option (Option (ℕ × ℕ) × Memory)
entry_in pde va m =
    if is_frame m (frame_of pde) then some (some (frame_of pde, pte_index va), m) else none

-- The entry of a new table, `pa | PTE_PAGE_USER | PTE_PAGE_WRITEABLE | PTE_PAGE_PERSENT`.
abbrev pub new_pde : ℕ → ℕ
new_pde page = bit_or (bit_or (bit_or (page2pa page) 4) 2) 1

-- The new table in the frame `page` is cleared and entered in the directory.
pub add_table : ℕ → ℕ → ℕ → Memory → Option Memory
add_table pgdir va page m =
    let t = set_page_ref page 1 m in
    let u : Memory = record t { words = update t.words page (λ i. 0) } in
    if is_frame m page then some (set_word pgdir (pgd_index va) (new_pde page) u) else none

-- The frames for a table, and what is done with it.
pub new_table : ℕ → ℕ → Memory → Option (Option (ℕ × ℕ) × Memory)
new_table pgdir va m = elim (alloc_pages 1 m.frames) [
  | none ↦ none
  | some (none, a) ↦ some (none, record m { frames = a })
  | some (some page, a) ↦ elim (add_table pgdir va page (record m { frames = a })) [
    | none ↦ none
    | some t ↦ entry_in (t.words pgdir (pgd_index va)) va t
  ]
]

-- Inside the `Option` of a panic, `none` is NULL.
pub get_pte : ℕ → ℕ → Bool → Memory → Option (Option (ℕ × ℕ) × Memory)
get_pte pgdir va create m =
    let pde = m.words pgdir (pgd_index va) in
    if is_present pde
    then entry_in pde va m
    else if create
    then new_table pgdir va m
    else some (none, m)

-- The page goes back to the allocator when nothing refers to it any more.
pub drop_ref : ℕ → Memory → Option Memory
drop_ref page m =
    let t = page_ref_dec page m in
    if is_unused page t
    then elim (free_pages page 1 t.frames) [ none ↦ none | some a ↦ some (record t { frames = a }) ]
    else some t

pub pte_remove_page : ℕ × ℕ → Memory → Option Memory
pte_remove_page (table, index) m =
    let e = m.words table index in
    if not (is_present e)
    then some m
    else if not (is_frame m (frame_of e))
    then none
    else elim (drop_ref (frame_of e) m) [ none ↦ none | some t ↦ some (set_word table index 0 t) ]

pub page_remove : ℕ → ℕ → Memory → Option Memory
page_remove pgdir va m = elim (get_pte pgdir va false m) [
  | none ↦ none
  | some (none, t) ↦ some t
  | some (some p, t) ↦ pte_remove_page p t
]

-- What `page_insert` does with a page that the entry names already.
pub replace : ℕ → ℕ × ℕ → Memory → Option Memory
replace page (table, index) m =
    let e = m.words table index in
    if not (is_present e)
    then some m
    else if not (is_frame m (frame_of e))
    then none
    else if frame_of e == page
    then some (page_ref_dec page m)
    else pte_remove_page (table, index) m

-- `page2pa(page) | PTE_PAGE_PERSENT | perm`.
abbrev pub new_pte : ℕ → ℕ → ℕ
new_pte page perm = bit_or (bit_or (page2pa page) 1) perm

-- The result is the code, negated in C where it is not 0.
pub page_insert : ℕ → ℕ → ℕ → ℕ → Memory → Option (ℕ × Memory)
page_insert pgdir page va perm m = elim (get_pte pgdir va true m) [
  | none ↦ none
  | some (none, t) ↦ some (e_nomem, t)
  | some (some (table, index), t) ↦ elim (replace page (table, index) (page_ref_inc page t)) [
    | none ↦ none
    | some u ↦ some (0, set_word table index (new_pte page perm) u)
  ]
]

-- The page is freed again when it finds no place.
after_insert : ℕ → Option (ℕ × Memory) → Option (Option ℕ × Memory)
after_insert page none = none
after_insert page (some (ret, m)) =
    if ret == 0 then some (some page, m) else elim (free_pages page 1 m.frames) [
      | none ↦ none
      | some a ↦ some (none, record m { frames = a })
    ]

pub pgdir_alloc_page : ℕ → ℕ → ℕ → Memory → Option (Option ℕ × Memory)
pgdir_alloc_page pgdir la perm m = elim (alloc_pages 1 m.frames) [
  | none ↦ none
  | some (none, a) ↦ some (none, record m { frames = a })
  | some (some page, a) ↦
      after_insert page (page_insert pgdir page la perm (record m { frames = a }))
]
