-- ===== src/Wait.antt =====
-- Wait queues: `kern/krnl/sync/wait.c`.
--
-- A `Wait_t` stands on the stack of the task that it is for, and a task waits in one queue at most, so
-- that a wait is the number of its task. The queue of a head is the sequence of its waits, which
-- `LinkedList` relates to the pointers. `none` is the panic of `wakeupTask`.
pub mod Wakeup
mod Tests
use freak_os.Base.{
  ℕ, ◌+◌, Bool, true, false, not, List, [], ◌∷◌, ◌++◌, Option, none, some, ◌==◌, if◌then◌else◌,
  update, erase, has,
}
use freak_os.Sched.{Sched, task_sleeping, wakeup_task, head}

abbrev pub wt_interrupted : ℕ
wt_interrupted = 0x8000_0000

pub record Waits : Type 0 where
  pub queue : List ℕ
  pub flags : ℕ → ℕ

unfoldable pub waitlist_init : Waits → Waits
waitlist_init w = record w { queue = [] }

unfoldable pub wait_init : ℕ → Waits → Waits
wait_init task w = record w { flags = update w.flags task wt_interrupted }

unfoldable pub waitlist_add : ℕ → Waits → Waits
waitlist_add task w = record w { queue = w.queue ++ task ∷ [] }

unfoldable pub waitlist_del : ℕ → Waits → Waits
waitlist_del task w = record w { queue = erase task w.queue }

unfoldable pub waitlist_is_empty : Waits → Bool
waitlist_is_empty w = elim w.queue [ [] ↦ true | _ ∷ _ ↦ false ]

unfoldable pub waitlist_is_in_list : ℕ → Waits → Bool
waitlist_is_in_list task w = has task w.queue

-- `NULL` is `none`.
unfoldable pub waitlist_get_first : Waits → Option ℕ
waitlist_get_first w = head w.queue

-- The task behind the given one.
next_of : ℕ → List ℕ → Option ℕ
next_of task [] = none
next_of task (x ∷ xs) = if x == task then head xs else next_of task xs

unfoldable pub waitlist_get_next : ℕ → Waits → Option ℕ
unfolding next_of
waitlist_get_next task w = next_of task w.queue

unfoldable pub wakeup_wait : ℕ → ℕ → Bool → Waits → Sched → Option (Waits × Sched)
unfolding waitlist_del
wakeup_wait task wakeup_flags del w s =
    let v = if del then waitlist_del task w else w in
    elim (wakeup_task task s) [
      | none ↦ none
      | some t ↦ some (record v { flags = update v.flags task wakeup_flags }, t)
    ]

unfoldable pub wakeup_first : ℕ → Bool → Waits → Sched → Option (Waits × Sched)
unfolding wakeup_wait waitlist_get_first
wakeup_first wakeup_flags del w s = elim (waitlist_get_first w) [
  | none ↦ some (w, s)
  | some task ↦ wakeup_wait task wakeup_flags del w s
]

-- The loops of `wakeupAll` on the waits that the queue holds at its start. With `del` each round takes
-- the first wait out and goes on with the one that is the first then; without it goes on with the next.
unfoldable pub wakeup_each : List ℕ → ℕ → Bool → Waits → Sched → Option (Waits × Sched)
wakeup_each [] wakeup_flags del w s = some (w, s)
wakeup_each (x ∷ xs) wakeup_flags del w s = elim (wakeup_wait x wakeup_flags del w s) [
  | none ↦ none
  | some (v, t) ↦ wakeup_each xs wakeup_flags del v t
]

unfoldable pub wakeup_all : ℕ → Bool → Waits → Sched → Option (Waits × Sched)
unfolding wakeup_each
wakeup_all wakeup_flags del w s = wakeup_each w.queue wakeup_flags del w s

-- The current task goes to sleep in the queue.
unfoldable pub wait_add_current : ℕ → Waits → Sched → Waits × Sched
unfolding wait_init waitlist_add
wait_add_current wait_state w s = (
  waitlist_add s.current (wait_init s.current w),
  record s {
    state = update s.state s.current task_sleeping;
    wait_state = update s.wait_state s.current wait_state;
  },
)

unfoldable pub wait_del_current : Waits → Sched → Waits
unfolding waitlist_is_in_list waitlist_del
wait_del_current w s = if waitlist_is_in_list s.current w then waitlist_del s.current w else w
