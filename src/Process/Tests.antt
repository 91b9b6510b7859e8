-- ===== src/Process/Tests.antt =====
-- Runs of `do_exit` and `do_wait`: the task 2, with the children 5, 4 and 3, of which 4 has ended, runs.
-- `init`, the task 1, has the children 6 and 2 and waits for one of them. The task 0 is idle.
use freak_os.Base.{◌≡◌, refl, false, [], ◌∷◌, ◌||◌, arith, ◌==◌, if◌then◌else◌, some, none}
use freak_os.Sched.{Sched, task_runnable, task_sleeping, task_zombie}
use freak_os.Sched.Queue.{IsSched}
use freak_os.Tasks.{Tasks}
use freak_os.Tasks.Family.{IsFamily}
use freak_os.Process.{
  Kernel, Spaces, wt_child, wait_round, do_wait, bad_proc, find_zombie, zombie_from,
}
use freak_os.Paging.Tests.{small_memory}
use freak_os.AddressSpace.Tests.{one_area}
use freak_os.Process.Wait.{Answered, wait_round-Answered}

abbrev family : Tasks
family = record {
  parent = λ x. if (x == 6) || (x == 2) then 1 else 2;
  cptr = λ x. if x == 1 then 6 else if x == 2 then 5 else 0;
  yptr = λ x. if x == 2 then 6 else if x == 4 then 5 else if x == 3 then 4 else 0;
  optr = λ x. if x == 6 then 2 else if x == 5 then 4 else if x == 4 then 3 else 0;
  tid = λ x. x;
  task_list = 6 ∷ 5 ∷ 4 ∷ 3 ∷ 2 ∷ 1 ∷ 0 ∷ [];
  task_count = 7;
}

abbrev tasks_run : Sched
tasks_run = record {
  state = λ x.
      if x == 4
      then task_zombie
      else if (x == 0) || (x == 2) || (x == 3)
      then task_runnable
      else task_sleeping;
  wait_state = λ x. if x == 1 then wt_child else 0;
  time_slice = λ x. 1;
  need_resched = λ x. false;
  run_list = 3 ∷ [];
  task_num = 1;
  max_time_slice = 1;
  current = 2;
  idle_task = 0;
}

-- Only the task 2 has a map.
abbrev spaces : Spaces
spaces = record {
  mm = λ x. if x == 2 then 1 else 0;
  mm_count = λ x. 1;
  pgdir = λ x. 1;
  vma_list = λ x. one_area;
  memory = small_memory;
}

abbrev kernel : Kernel
kernel = record { spaces = spaces; sched = tasks_run; tasks = family; exit_code = λ x. 40 }

tasks_run-IsSched : IsSched tasks_run
tasks_run-IsSched = record {
  queued = λ x. ground arith;
  distinct = ground arith;
  counted = refl;
  positive = omega arith;
  slices = λ x h. (omega arith, omega arith);
}

children-IsFamily : IsFamily family 2 (5 ∷ 4 ∷ 3 ∷ [])
children-IsFamily = record {
  chain = (refl, refl, refl, refl, (refl, refl, refl, refl, (refl, refl, refl, refl, refl)));
  distinct = ground arith;
}

wait_round-Answered_example :
    Answered 0 kernel 1
      (5 ∷ 4 ∷ 3 ∷ [])
      tasks_run-IsSched
      children-IsFamily
      refl
      refl
      (wait_round 4 1 0 kernel)
wait_round-Answered_example =
    wait_round-Answered 0 kernel 1 (5 ∷ 4 ∷ 3 ∷ []) tasks_run-IsSched children-IsFamily refl refl

-- The task 3 has no child to wait for.
no_child :
    do_wait 4 1 none 0 none (record kernel { sched = record tasks_run { current = 3 } })
    ≡ some bad_proc
unfolding do_wait wait_round find_zombie zombie_from
no_child = refl
