-- ===== src/AddressSpace/Tests.antt =====
-- A process with one area, over the end of its only table.
use freak_os.Base.{refl, [], ◌∷◌, List}
use freak_os.Vmm.{Vma, is_user_can_access}
use freak_os.AddressSpace.Teardown.{AreUser}

abbrev pub one_area : List Vma
one_area = record { vm_start = 2097152; vm_end = 4198400; vm_flags = 3 } ∷ []

pub one_area-AreUser : AreUser one_area
unfolding is_user_can_access
one_area-AreUser = (refl, tt)
