-- ===== src/Semaphore/Tests.antt =====
-- Runs of a semaphore that two tasks use.
use freak_os.Base.{
  ◌≡◌, ◌≢◌, ◌⊎◌, inr, refl, false, [], ◌∷◌, ◌++◌, none, arith, ltb, if◌then◌else◌, has,
}
use freak_os.Sched.{task_runnable, task_sleeping, Sched}
use freak_os.Sched.Queue.{IsSched}
use freak_os.Semaphore.{down_enter}
use freak_os.Semaphore.System.{
  System, Reachable, acquire_enter, acquire_leave, release, entered, here, next,
}
use freak_os.Semaphore.Invariant.{IsSystem}
use freak_os.Semaphore.Exclusion.{Reachable-safe}

-- The task 0 is idle, 1 runs, and 2 can run.
abbrev two_tasks : Sched
two_tasks = record {
  state = λ x. if ltb x 3 then task_runnable else task_sleeping;
  wait_state = λ x. 0;
  time_slice = λ x. 1;
  need_resched = λ x. false;
  run_list = 2 ∷ [];
  task_num = 1;
  max_time_slice = 1;
  current = 1;
  idle_task = 0;
}

two_tasks-IsSched : IsSched two_tasks
two_tasks-IsSched = record {
  queued = λ x. ground arith;
  distinct = ground arith;
  counted = refl;
  positive = omega arith;
  slices = λ x h. (omega arith, omega arith);
}

abbrev mutex : System
mutex = record {
  sem = record { value = 1; waits = record { queue = []; flags = λ x. 0 } };
  sched = two_tasks;
  inside = [];
  granted = [];
}

mutex-IsSystem : IsSystem 1 mutex
mutex-IsSystem = record {
  small = omega arith;
  tasks = two_tasks-IsSched;
  balance = refl;
  waits = inr refl;
  asleep = λ x h. absurd cc;
  marked = λ x h. absurd cc;
  distinct = tt;
}

-- The task 1 goes inside.
abbrev taken : System
taken = acquire_enter mutex

taken-Reachable : Reachable mutex taken
taken-Reachable = next here (entered refl refl)

is_inside : taken.inside ≡ 1 ∷ []
unfolding acquire_enter down_enter
is_inside = refl

Reachable-safe_example :
    ((has taken.sched.current (taken.granted ++ taken.sem.waits.queue) ≡ false)
      ⊎ (acquire_leave taken ≢ none))
    × ((has taken.sched.current taken.inside ≡ false) ⊎ (release taken ≢ none))
Reachable-safe_example = Reachable-safe 1 mutex taken mutex-IsSystem taken-Reachable
