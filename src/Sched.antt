-- ===== src/Sched.antt =====
-- The round-robin scheduler: `kern/krnl/task/sched.c`.
--
-- A task is its `Task_t`, a number. The fields that the scheduler uses are functions of it; the list
-- `run_list` is the sequence of its tasks, which `LinkedList` relates to the pointers. Turning the
-- interrupts off and on, which makes each of these functions one step, and the switch of stacks and
-- page directories in `runTask` have no other effect here. A `panic` is `none`.
pub mod Queue
pub mod Round
mod Tests
use freak_os.Base.{
  ℕ, zero, suc, ◌+◌, ◌-◌, Bool, true, false, ◌&&◌, ◌||◌, not, List, [], ◌∷◌, ◌++◌, Option, none,
  some, ltb, ◌==◌, if◌then◌else◌, update, erase,
}
use freak_os.Base.Word.{add32, sub32}

pub data TaskState : Type 0 where
  task_uninit : TaskState
  task_sleeping : TaskState
  task_runnable : TaskState
  task_zombie : TaskState

abbrev pub wt_notwait : ℕ
wt_notwait = 0

abbrev pub max_time_slices : ℕ
max_time_slices = 1

-- The tasks and the run queue.
pub record Sched : Type 0 where
  pub state : ℕ → TaskState
  pub wait_state : ℕ → ℕ
  pub time_slice : ℕ → ℕ
  pub need_resched : ℕ → Bool
  pub run_list : List ℕ
  pub task_num : ℕ
  pub max_time_slice : ℕ
  pub current : ℕ
  pub idle_task : ℕ

abbrev pub is_runnable : TaskState → Bool
is_runnable task_runnable = true
is_runnable _ = false

abbrev pub is_zombie : TaskState → Bool
is_zombie task_zombie = true
is_zombie _ = false

pub init_run_queue : Sched → Sched
init_run_queue s = record s { max_time_slice = max_time_slices; task_num = 0; run_list = [] }

-- A slice that is used up, or too long, is renewed.
pub enqueue_run_queue : ℕ → Sched → Sched
enqueue_run_queue task s = record s {
  run_list = s.run_list ++ task ∷ [];
  time_slice =
      if (s.time_slice task == 0) || ltb s.max_time_slice (s.time_slice task)
      then update s.time_slice task s.max_time_slice
      else s.time_slice;
  task_num = add32 s.task_num 1;
}

pub dequeue_run_queue : ℕ → Sched → Sched
dequeue_run_queue task s = record s {
  run_list = erase task s.run_list;
  task_num = sub32 s.task_num 1;
}

abbrev pub head : List ℕ → Option ℕ
head [] = none
head (x ∷ xs) = some x

pub get_head_run_queue : Sched → Option ℕ
get_head_run_queue s = head s.run_list

pub run_task : ℕ → Sched → Sched
run_task next s = if next == s.current then s else record s { current = next }

-- The first half of `schedule`: the current task joins the queue if it can go on.
pub requeue_current : Sched → Sched
unfolding enqueue_run_queue
requeue_current s =
    let t : Sched = record s { need_resched = update s.need_resched s.current false } in
    if is_runnable (s.state s.current) && not (s.current == s.idle_task)
    then enqueue_run_queue s.current t
    else t

-- The second half: the head of the queue runs, or the idle task.
pub run_next : Sched → Sched
unfolding dequeue_run_queue get_head_run_queue run_task
run_next s = elim (get_head_run_queue s) [
  | none ↦ run_task s.idle_task s
  | some next ↦ run_task next (dequeue_run_queue next s)
]

pub schedule : Sched → Sched
unfolding requeue_current run_next
schedule s = run_next (requeue_current s)

pub tick_task : ℕ → Sched → Sched
tick_task task s =
    let left = if ltb 0 (s.time_slice task) then s.time_slice task - 1 else s.time_slice task in
    record s {
      time_slice = update s.time_slice task left;
      need_resched = if left == 0 then update s.need_resched task true else s.need_resched;
    }

pub wakeup_task : ℕ → Sched → Option Sched
unfolding enqueue_run_queue
wakeup_task task s =
    let t : Sched = record s {
      state = update s.state task task_runnable;
      wait_state = update s.wait_state task wt_notwait;
    } in
    if is_zombie (s.state task)
    then none
    else if is_runnable (s.state task)
    then some s
    else if not (task == s.current) && not (task == s.idle_task)
    then some (enqueue_run_queue task t)
    else some t
