-- ===== src/Vmm/Tests.antt =====
-- Runs of the memory map on two areas.
use freak_os.Base.{◌≡◌, refl, true, [], ◌∷◌, some, none, arith}
use freak_os.Base.Word.{round_down, round_up}
use freak_os.Vmm.{
  Vma, MemMap, scan, find_vma, insert_vma, insert_behind, map_found, map_new, check_vma_overlap,
  mm_map, check_user_mem, is_user_can_access,
}
use freak_os.Vmm.Map.{IsMap, find_vma_lem, Inserted, insert_vma-Inserted}
use freak_os.Vmm.Check.{Judged, check_user_mem-Judged, check_user_mem-unchecked}

abbrev pub text_area : Vma
text_area = record { vm_start = 0x40_0000; vm_end = 0x40_2000; vm_flags = 5 }

abbrev pub data_area : Vma
data_area = record { vm_start = 0x40_4000; vm_end = 0x40_6000; vm_flags = 3 }

abbrev pub two_areas : MemMap
two_areas = record {
  vma_list = text_area ∷ data_area ∷ [];
  vma_cache = some data_area;
  vma_count = 2;
}

two_areas-IsMap : IsMap two_areas
unfolding scan
two_areas-IsMap = record { sorted = ground arith; cached = λ a h. ground arith; counted = refl }

found : (find_vma two_areas 0x40_1000).0 ≡ some text_area
unfolding find_vma scan
found = refl

find_vma_lem_example :
    let (vma, mm) = find_vma two_areas 0x40_1000 in
    (vma ≡ scan two_areas.vma_list 0x40_1000) × (mm.vma_list ≡ two_areas.vma_list) × IsMap mm
find_vma_lem_example = find_vma_lem two_areas 0x40_1000 two_areas-IsMap

abbrev gap_area : Vma
gap_area = record { vm_start = 0x40_2000; vm_end = 0x40_4000; vm_flags = 1 }

insert_vma-Inserted_example : Inserted two_areas gap_area (insert_vma two_areas gap_area)
insert_vma-Inserted_example = insert_vma-Inserted two_areas gap_area two_areas-IsMap

-- The start of the area is free, and its end lies in the data: the machine stops.
stopped : mm_map two_areas 0x40_3000 0x2000 3 true ≡ none
unfolding mm_map find_vma scan insert_vma insert_behind map_found map_new is_user_can_access
    check_vma_overlap round_down round_up
stopped = refl

check_user_mem-Judged_example :
    Judged two_areas.vma_list 0x40_0000 0x1000 true
      (check_user_mem (some two_areas) 0x40_0000 0x1000 true)
check_user_mem-Judged_example =
    check_user_mem-Judged two_areas 0x40_0000 0x1000 true two_areas-IsMap

inside : is_user_can_access 0x40_0000 0x40_1000 ≡ true
unfolding is_user_can_access
inside = refl

-- A write to the text, whose area forbids it, is accepted.
check_user_mem-unchecked_example :
    check_user_mem (some two_areas) 0x40_0000 0x1000 true ≡ some (true, some two_areas)
check_user_mem-unchecked_example =
    check_user_mem-unchecked two_areas 0x40_0000 0x1000 true inside (omega arith)
