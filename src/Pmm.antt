-- ===== src/Pmm.antt =====
-- The physical page allocator: `kern/mm/ff_mmanager.c` (first fit), with `getFreeMem` of
-- `kern/mm/pmm.c` and the page flags of `kern/include/pmm.h`.
--
-- A page is its index in `Pages`. The three fields that the allocator uses are arrays over the index;
-- the list `FreeArea.ptr` is the sequence of its pages, which `LinkedList` relates to the pointers. A
-- `panic` or a failed `assert` stops the machine, and is `none`.
pub mod Mult
pub mod Invariant
pub mod Alloc
pub mod Merge
pub mod Free
pub mod Single
pub mod Start
pub mod Tests
use freak_os.Base.{
  ℕ, zero, suc, ◌+◌, ◌-◌, ◌*◌, ◌%◌, ◌^◌, Bool, true, false, ◌||◌, not, List, [], ◌∷◌, Option, none,
  some, ltb, leb, ◌==◌, if◌then◌else◌, update, erase,
}
use freak_os.Base.Bits.{get_bit, set_bit, clear_bit}
use freak_os.Base.Word.{add32, sub32, pg_size}

pub record Area : Type 0 where
  pub flags : ℕ → ℕ
  pub property : ℕ → ℕ
  pub ref : ℕ → ℕ
  pub free_list : List ℕ
  pub free_page_count : ℕ

abbrev pub pgp_reserved : ℕ
pgp_reserved = 0

abbrev pub pgp_property : ℕ
pgp_property = 1

pub free_area_init : Area → Area
free_area_init s = record s { free_list = []; free_page_count = 0 }

-- The body of the loop of `ff_memmap_init`, and the loop over the pages from `p` on.
clear_page : ℕ → Area → Area
clear_page p s = if s.flags p == 0 then s else record s {
  flags = update s.flags p 0;
  property = update s.property p 0;
  ref = update s.ref p 0;
}

clear_pages : ℕ → ℕ → Area → Area
clear_pages zero p s = s
clear_pages (suc n) p s = clear_pages n (p + 1) (clear_page p s)

-- Makes `base` the head of a free block of `n` pages.
abbrev pub set_head : ℕ → ℕ → Area → Area
set_head base n s = record s {
  property = update s.property base n;
  flags = update s.flags base (set_bit (s.flags base) pgp_property);
}

-- Takes the mark of a head away.
abbrev pub clear_head : ℕ → Area → Area
clear_head p s = record s { flags = update s.flags p (clear_bit (s.flags p) pgp_property) }

-- `listAdd` to the free list, in front.
abbrev pub add_front : ℕ → Area → Area
add_front p s = record s { free_list = p ∷ s.free_list }

-- `listDel` from the free list.
abbrev pub del_list : ℕ → Area → Area
del_list p s = record s { free_list = erase p s.free_list }

pub memmap_init : ℕ → ℕ → Area → Option Area
unfolding clear_pages
memmap_init base n s =
    if n == 0
    then none
    else (let t = set_head base n (clear_pages n base s) in
        some (add_front base (record t { free_page_count = add32 t.free_page_count n })))

-- `listAdd(&page->ptr, &p->ptr)`: behind the node `a`.
abbrev pub insert_after : ℕ → ℕ → List ℕ → List ℕ
insert_after a b [] = []
insert_after a b (x ∷ xs) = if x == a then x ∷ b ∷ xs else x ∷ insert_after a b xs

-- The first block that is large enough.
pub first_fit : ℕ → (ℕ → ℕ) → List ℕ → Option ℕ
first_fit n f [] = none
first_fit n f (p ∷ ps) = if leb n (f p) then some p else first_fit n f ps

-- Keeps the tail of a block that is too large as a block of its own.
pub split_block : ℕ → ℕ → Area → Area
split_block n page s =
    if ltb n (s.property page)
    then (let p = page + n in
        let t = set_head p (s.property page - n) s in
        record t { free_list = insert_after page p t.free_list })
    else s

-- What is done with the block found.
pub take_block : ℕ → ℕ → Area → Area
unfolding split_block
take_block n page s =
    let t = del_list page (split_block n page s) in
    let u = clear_head page (record t { free_page_count = sub32 t.free_page_count n }) in
    record u { property = update u.property page n }

-- The result is the page, or `none` for NULL, inside the `Option` of a panic.
pub alloc_pages : ℕ → Area → Option (Option ℕ × Area)
alloc_pages n s =
    if n == 0
    then none
    else if ltb s.free_page_count n
    then some (none, s)
    else elim (first_fit n s.property s.free_list) [
      | none ↦ some (none, s)
      | some page ↦ some (some page, take_block n page s)
    ]

-- The first loop of `ff_free_pages`: a page that is reserved or heads a free block is a panic.
pub release_pages : ℕ → ℕ → Area → Option Area
release_pages zero p s = some s
release_pages (suc n) p s =
    let rest =
      release_pages n (p + 1) (record s { flags = update s.flags p 0; ref = update s.ref p 0 }) in
    if not (get_bit (s.flags p) pgp_reserved == 0) || not (get_bit (s.flags p) pgp_property == 0)
    then none
    else rest

-- The second loop, over the nodes that the list held when it began: a node taken out by `listDel`
-- keeps its own pointers, so the walk goes on to the same successor.
pub merge_step : ℕ → ℕ → Area → ℕ × Area
merge_step p base s =
    if base + s.property base == p
    then (
      base,
      del_list p (
          clear_head p (record s {
            property = update s.property base (add32 (s.property base) (s.property p));
          })),
    )
    else if p + s.property p == base
    then (
      p,
      del_list p (
          clear_head base
            (record s { property = update s.property p (add32 (s.property p) (s.property base)) })),
    )
    else (base, s)

pub merge_blocks : List ℕ → ℕ → Area → ℕ × Area
merge_blocks [] base s = (base, s)
merge_blocks (p ∷ ps) base s = let (base', s') = merge_step p base s in merge_blocks ps base' s'

pub free_pages : ℕ → ℕ → Area → Option Area
free_pages base n s = if n == 0 then none else elim (release_pages n base s) [
  | none ↦ none
  | some t ↦
      let (base', u) = merge_blocks t.free_list base (set_head base n t) in
      some (add_front base' (record u { free_page_count = add32 u.free_page_count n }))
]

-- The sum that `getFreeMem` makes over the list.
free_blocks : List ℕ → (ℕ → ℕ) → ℕ → ℕ
free_blocks [] f acc = acc
free_blocks (p ∷ ps) f acc = free_blocks ps f (add32 acc (f p))

pub get_free_mem : Area → ℕ
unfolding free_blocks
get_free_mem s = free_blocks s.free_list s.property 0 * pg_size % 2 ^ 32
