-- ===== src/Semaphore.antt =====
-- Semaphores: `kern/krnl/sync/sem.c`.
--
-- Each half of `down` and the whole of `up` run with the interrupts off, so that each is one step.
-- Between the halves of `down` the task sleeps. A `panic` is `none`.
pub mod System
pub mod Invariant
pub mod Release
pub mod Exclusion
mod Tests
use freak_os.Base.{
  ℕ, ◌+◌, ◌-◌, ◌^◌, Bool, true, false, ◌&&◌, not, Option, none, some, ltb, ◌==◌, if◌then◌else◌,
}
use freak_os.Base.Word.{add32, sub32}
use freak_os.Sched.{Sched, schedule}
use freak_os.Wait.{
  Waits, waitlist_init, waitlist_get_first, wakeup_wait, wait_add_current, wait_del_current,
}

abbrev pub wt_ksem : ℕ
wt_ksem = 0x100

-- The value is the `int32_t` as a word.
pub record Sem : Type 0 where
  pub value : ℕ
  pub waits : Waits

pub init_sem : ℕ → Sem → Sem
init_sem value sem = record { value = value; waits = waitlist_init sem.waits }

abbrev pub is_positive : ℕ → Bool
is_positive v = ltb 0 v && ltb v (2 ^ 31)

-- `down` up to its return, where the value is positive, or up to the call of `schedule` and through it.
-- The flag says whether it has returned.
pub down_enter : ℕ → Sem → Sched → Bool × Sem × Sched
down_enter wait_state sem s =
    let (w, t) = wait_add_current wait_state sem.waits s in
    if is_positive sem.value
    then (true, record sem { value = sub32 sem.value 1 }, s)
    else (false, record sem { waits = w }, schedule t)

-- What is left of `down` when the task runs again, with its code.
pub down_leave : ℕ → Sem → Sched → ℕ × Sem
down_leave wait_state sem s =
    let w = wait_del_current sem.waits s in
    (if w.flags s.current == wait_state then 0 else w.flags s.current, record sem { waits = w })

pub up : ℕ → Sem → Sched → Option (Sem × Sched)
up wait_state sem s = elim (waitlist_get_first sem.waits) [
  | none ↦ some (record sem { value = add32 sem.value 1 }, s)
  | some wait ↦ elim (wakeup_wait wait wait_state true sem.waits s) [
    | none ↦ none
    | some (w, t) ↦ some (record sem { waits = w }, t)
  ]
]
