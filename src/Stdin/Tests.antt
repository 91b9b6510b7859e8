-- ===== src/Stdin/Tests.antt =====
-- Runs of the ring.
use freak_os.Base.{◌+◌, ◌≡◌, refl, false, [], ◌∷◌, ◌++◌, some, arith, min, ltb, if◌then◌else◌}
use freak_os.Sched.{Sched, task_runnable, task_sleeping}
use freak_os.Wait.{waitlist_is_empty, wait_del_current}
use freak_os.Stdin.{Stdin, stdin_do_write, store, read_ready, read_part, read_woken, count}
use freak_os.Stdin.Ring.{IsRing, unread, push, store-push, read_ready-front}

abbrev typed : Stdin
typed = record {
  buffer = λ i. i + 60;
  rpos = 5;
  wpos = 8;
  waits = record { queue = []; flags = λ x. 0 };
}

typed-IsRing : IsRing typed
typed-IsRing = record { behind = omega arith; fits = omega arith }

abbrev one_task : Sched
one_task = record {
  state = λ x. if ltb x 2 then task_runnable else task_sleeping;
  wait_state = λ x. 0;
  time_slice = λ x. 1;
  need_resched = λ x. false;
  run_list = [];
  task_num = 0;
  max_time_slice = 1;
  current = 1;
  idle_task = 0;
}

written : stdin_do_write 70 typed one_task ≡ some (store 70 typed, one_task)
unfolding stdin_do_write store waitlist_is_empty
written = refl

part : (read_part 2 typed one_task).0 ≡ 65 ∷ 66 ∷ []
unfolding read_part read_ready
part = refl

interrupted : (read_woken 2 typed one_task).0 ≡ []
unfolding read_woken wait_del_current
interrupted = refl

store-push_example : IsRing (store 70 typed) × (unread (store 70 typed) ≡ push 70 (unread typed))
store-push_example = store-push 70 typed typed-IsRing (omega arith)

read_ready-front_example :
    let (cs, rest) = read_ready 2 typed in
    IsRing rest × (cs ++ unread rest ≡ unread typed) × (count cs ≡ min 2 (count (unread typed)))
read_ready-front_example = read_ready-front 2 typed typed-IsRing (omega arith)
