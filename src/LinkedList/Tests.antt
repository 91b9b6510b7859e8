-- ===== src/LinkedList/Tests.antt =====
-- Runs of the list operations on a list of three nodes.
use freak_os.Base.{[], ◌∷◌, ◌≡◌, refl, some, arith}
use freak_os.LinkedList.{Heap, init_list, list_add_tail, list_del_init, list_for_each}
use freak_os.LinkedList.Ring.{IsRing}
use freak_os.LinkedList.Insert.{init_list-IsRing, list_add_tail-append}
use freak_os.LinkedList.Remove.{list_del_init-remove}
use freak_os.LinkedList.Walk.{list_for_each_lem}

-- The head is the node 1.
abbrev empty_heap : Heap
empty_heap = init_list 1 (record { prev = λ a. 0; next = λ a. 0 })

abbrev three : Heap
three = list_add_tail 1 4 (list_add_tail 1 3 (list_add_tail 1 2 empty_heap))

three-IsRing : IsRing three 1 (2 ∷ 3 ∷ 4 ∷ [])
three-IsRing =
    list_add_tail-append 1 4 (2 ∷ 3 ∷ [])
      (list_add_tail-append 1 3 (2 ∷ []) (list_add_tail-append 1 2 [] (init_list-IsRing 1 _) refl)
        refl)
      refl

visited : list_for_each 4 1 (list_del_init 3 three) ≡ some (2 ∷ 4 ∷ [])
unfolding list_for_each list_del_init list_add_tail init_list
visited = refl

list_del_init-remove_example :
    IsRing (list_del_init 3 three) 1 (2 ∷ 4 ∷ []) × IsRing (list_del_init 3 three) 3 []
list_del_init-remove_example = list_del_init-remove 1 (2 ∷ []) 3 (4 ∷ []) three-IsRing

list_for_each_lem_example : list_for_each 4 1 three ≡ some (2 ∷ 3 ∷ 4 ∷ [])
list_for_each_lem_example = list_for_each_lem 4 1 (2 ∷ 3 ∷ 4 ∷ []) three-IsRing (omega arith)
