-- ===== src/Sched/Tests.antt =====
-- Runs of the scheduler on four tasks.
use freak_os.Base.{◌≡◌, refl, true, false, [], ◌∷◌, arith, ltb, if◌then◌else◌}
use freak_os.Sched.{
  task_runnable, task_sleeping, Sched, schedule, wakeup_task, requeue_current, run_next, run_task,
  enqueue_run_queue, dequeue_run_queue, get_head_run_queue, tick_task, init_run_queue,
}
use freak_os.Sched.Queue.{IsSched, Woken, wakeup_task-Woken}
use freak_os.Sched.Round.{Chosen, schedule-Chosen, schedules, schedules-reach}

-- The task 0 is idle, 1 runs, 2 and 3 are in the queue, and the others sleep.
abbrev four_tasks : Sched
four_tasks = record {
  state = λ x. if ltb x 4 then task_runnable else task_sleeping;
  wait_state = λ x. 0;
  time_slice = λ x. 1;
  need_resched = λ x. false;
  run_list = 3 ∷ 2 ∷ [];
  task_num = 2;
  max_time_slice = 1;
  current = 1;
  idle_task = 0;
}

four_tasks-IsSched : IsSched four_tasks
four_tasks-IsSched = record {
  queued = λ x. ground arith;
  distinct = ground arith;
  counted = refl;
  positive = omega arith;
  slices = λ x h. (omega arith, omega arith);
}

turns : (schedule four_tasks).run_list ≡ 2 ∷ 1 ∷ []
unfolding schedule requeue_current run_next run_task enqueue_run_queue dequeue_run_queue
    get_head_run_queue
turns = refl

expired : (tick_task 1 four_tasks).need_resched 1 ≡ true
unfolding tick_task
expired = refl

started : (init_run_queue four_tasks).run_list ≡ []
unfolding init_run_queue
started = refl

schedule-Chosen_example :
    let t = schedule four_tasks in
    IsSched t × Chosen (3 ∷ 2 ∷ 1 ∷ []) 0 t × (t.state ≡ four_tasks.state) × (t.idle_task ≡ 0)
schedule-Chosen_example = schedule-Chosen four_tasks four_tasks-IsSched

schedules-reach_example : (schedules 2 four_tasks).current ≡ 2
schedules-reach_example = schedules-reach 1 four_tasks 2 four_tasks-IsSched refl

wakeup_task-Woken_example : Woken 7 four_tasks (wakeup_task 7 four_tasks)
wakeup_task-Woken_example = wakeup_task-Woken 7 four_tasks four_tasks-IsSched
