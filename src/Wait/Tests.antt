-- ===== src/Wait/Tests.antt =====
-- Runs of the wait queue on three tasks.
use freak_os.Base.{ℕ, ◌≡◌, refl, true, false, [], ◌∷◌, some, arith, ltb, if◌then◌else◌, has}
use freak_os.Sched.{task_runnable, task_sleeping, Sched, is_zombie}
use freak_os.Sched.Queue.{IsSched}
use freak_os.Wait.{Waits, waitlist_init, waitlist_is_empty, waitlist_get_next, next_of, wakeup_all}
use freak_os.Wait.Wakeup.{AllWoken, wakeup_all-AllWoken}

-- The task 0 is idle, 1 runs, and the others sleep.
abbrev asleep : Sched
asleep = record {
  state = λ x. if ltb x 2 then task_runnable else task_sleeping;
  wait_state = λ x. 4;
  time_slice = λ x. 0;
  need_resched = λ x. false;
  run_list = [];
  task_num = 0;
  max_time_slice = 1;
  current = 1;
  idle_task = 0;
}

asleep-IsSched : IsSched asleep
asleep-IsSched = record {
  queued = λ x. ground arith;
  distinct = tt;
  counted = refl;
  positive = omega arith;
  slices = λ x h. absurd cc;
}

abbrev three_waits : Waits
three_waits = record { queue = 5 ∷ 6 ∷ 7 ∷ []; flags = λ x. 0 }

second : waitlist_get_next 5 three_waits ≡ some 6
unfolding waitlist_get_next next_of
second = refl

emptied : waitlist_is_empty (waitlist_init three_waits) ≡ true
unfolding waitlist_is_empty waitlist_init
emptied = refl

alive : (x : ℕ) → has x three_waits.queue ≡ true → is_zombie (asleep.state x) ≡ false
alive x h = ground arith

wakeup_all-AllWoken_example :
    AllWoken (5 ∷ 6 ∷ 7 ∷ []) 9 true three_waits asleep (wakeup_all 9 true three_waits asleep)
wakeup_all-AllWoken_example = wakeup_all-AllWoken 9 true three_waits asleep asleep-IsSched alive
