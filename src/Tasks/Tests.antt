-- ===== src/Tasks/Tests.antt =====
-- A task 2 with the children 5, 4 and 3, and `init`, the task 1, with the child 6.
use freak_os.Base.{◌≡◌, refl, [], ◌∷◌, arith, ◌==◌, if◌then◌else◌, some}
use freak_os.Tasks.{Tasks, del_task, find_in, find_task, get_new_tid}
use freak_os.Tasks.Family.{IsFamily}
use freak_os.Tasks.Unlink.{del_task-IsFamily}

abbrev family : Tasks
family = record {
  parent = λ x. if x == 6 then 1 else 2;
  cptr = λ x. if x == 1 then 6 else if x == 2 then 5 else 0;
  yptr = λ x. if x == 4 then 5 else if x == 3 then 4 else 0;
  optr = λ x. if x == 5 then 4 else if x == 4 then 3 else 0;
  tid = λ x. x;
  task_list = 6 ∷ 5 ∷ 4 ∷ 3 ∷ 2 ∷ 1 ∷ [];
  task_count = 6;
}

family-IsFamily : IsFamily family 2 (5 ∷ 4 ∷ 3 ∷ [])
family-IsFamily = record {
  chain = (refl, refl, refl, refl, (refl, refl, refl, refl, (refl, refl, refl, refl, refl)));
  distinct = ground arith;
}

del_task-IsFamily_example : IsFamily (del_task 4 family) 2 (5 ∷ 3 ∷ [])
del_task-IsFamily_example = del_task-IsFamily family 4 (5 ∷ []) (3 ∷ []) family-IsFamily

-- The count is one more than in `family`, as with the idle task 0 in the list.
abbrev with_idle : Tasks
with_idle = record family { task_list = 6 ∷ 5 ∷ 4 ∷ 3 ∷ 2 ∷ 1 ∷ 0 ∷ []; task_count = 7 }

-- Once the task 4 is gone, the next number is that of the task 6, which is still there.
tid_again : find_task (get_new_tid (del_task 4 with_idle)) (del_task 4 with_idle) ≡ some 6
unfolding find_task get_new_tid del_task find_in
tid_again = refl
