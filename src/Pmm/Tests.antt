-- ===== src/Pmm/Tests.antt =====
-- Runs of the page allocator on sixteen pages.
use freak_os.Base.{ℕ, ◌≤◌, ◌<◌, ◌≡◌, refl, [], ◌∷◌, arith, update}
use freak_os.Pmm.{Area, free_area_init, memmap_init, alloc_pages, free_pages, get_free_mem}
use freak_os.Base.Bits.{get_bit}
use freak_os.Pmm.Mult.{mult}
use freak_os.Pmm.Invariant.{IsArea}
use freak_os.Pmm.Alloc.{Allocated, alloc_pages-Allocated}
use freak_os.Pmm.Free.{Freed, free_pages-Freed}
use freak_os.Pmm.Start.{free_area_init-IsArea, Added, memmap_init-Added, get_free_mem_lem}

abbrev unknown : Area
unknown = record {
  flags = λ i. 1;
  property = λ i. 7;
  ref = λ i. 1;
  free_list = 5 ∷ [];
  free_page_count = 99;
}

abbrev no_page_free : Area
no_page_free = free_area_init unknown

-- The pages 4 to 7 and 12 to 13 are free.
abbrev pub two_blocks : Area
two_blocks = record {
  flags = update (update (λ i. 0) 4 2) 12 2;
  property = update (update (λ i. 0) 4 4) 12 2;
  ref = λ i. 0;
  free_list = 12 ∷ 4 ∷ [];
  free_page_count = 6;
}

pub two_blocks-IsArea : IsArea 16 two_blocks
unfolding get_bit
two_blocks-IsArea = record {
  small = omega arith;
  blocks = record {
    single = λ i. ground arith;
    positive = λ x k. ground arith;
    within = λ x k. ground arith;
  };
  headed = λ x k. ground arith;
  counted = refl;
}

alloc_pages-Allocated_example :
    Allocated 3 two_blocks-IsArea (omega arith) (alloc_pages 3 two_blocks)
alloc_pages-Allocated_example = alloc_pages-Allocated 3 two_blocks-IsArea (omega arith)

eight_used : (i : ℕ) → 8 ≤ i → i < 10 → mult two_blocks.property two_blocks.free_list i ≡ 0
eight_used i lo hi = ground arith

free_pages-Freed_example :
    Freed 8 2 two_blocks-IsArea (omega arith) (omega arith) eight_used (free_pages 8 2 two_blocks)
free_pages-Freed_example =
    free_pages-Freed 8 2 two_blocks-IsArea (omega arith) (omega arith) eight_used

none_used : (i : ℕ) → 2 ≤ i → i < 5 → mult no_page_free.property no_page_free.free_list i ≡ 0
unfolding free_area_init
none_used i lo hi = refl

memmap_init-Added_example :
    Added 2 3
      (free_area_init-IsArea 16 unknown (omega arith))
      (omega arith)
      (omega arith)
      none_used
      (memmap_init 2 3 no_page_free)
memmap_init-Added_example =
    memmap_init-Added 2 3 (free_area_init-IsArea 16 unknown (omega arith)) (omega arith)
      (omega arith) none_used

get_free_mem_lem_example : get_free_mem two_blocks ≡ 24576
get_free_mem_lem_example = get_free_mem_lem two_blocks two_blocks-IsArea (omega arith)
