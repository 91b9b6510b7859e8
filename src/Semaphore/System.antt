-- ===== src/Semaphore/System.antt =====
-- Tasks that use one semaphore, as a transition system: `acquireSem` and `releaseSem` of
-- `kern/krnl/sync/sem.c`, between calls of `schedule`.
use freak_os.Base.{
  ℕ, ◌≡◌, true, false, List, ◌∷◌, ◌++◌, Option, none, some, ◌==◌, if◌then◌else◌, erase, has,
}
use freak_os.Sched.{Sched, schedule}
use freak_os.Wait.{waitlist_get_first}
use freak_os.Semaphore.{Sem, down_enter, down_leave, up, wt_ksem}

-- With the semaphore and the scheduler, the tasks between `acquireSem` and `releaseSem`, and those that
-- were woken in `down` and have not run since.
pub record System : Type 0 where
  pub sem : Sem
  pub sched : Sched
  pub inside : List ℕ
  pub granted : List ℕ

-- `acquireSem` up to the point where it returns or sleeps.
unfoldable pub acquire_enter : System → System
acquire_enter u =
    let (got, sem, sched) = down_enter wt_ksem u.sem u.sched in
    record u {
      sem = sem;
      sched = sched;
      inside = if got then u.sched.current ∷ u.inside else u.inside;
    }

-- The rest of `acquireSem` in a task that slept: a code other than 0 is a panic.
unfoldable pub acquire_leave : System → Option System
acquire_leave u =
    let (code, sem) = down_leave wt_ksem u.sem u.sched in
    if code == 0
    then some (record u {
      sem = sem;
      inside = u.sched.current ∷ u.inside;
      granted = erase u.sched.current u.granted;
    })
    else none

-- The tasks that `up` wakes.
abbrev pub with_woken : Option ℕ → List ℕ → List ℕ
with_woken none granted = granted
with_woken (some w) granted = w ∷ granted

unfoldable pub release : System → Option System
release u = elim (up wt_ksem u.sem u.sched) [
  | none ↦ none
  | some (sem, sched) ↦ some (record {
    sem = sem;
    sched = sched;
    inside = erase u.sched.current u.inside;
    granted = with_woken (waitlist_get_first u.sem.waits) u.granted;
  })
]

-- The tasks that are at work on the semaphore.
abbrev pub engaged : System → List ℕ
engaged u = u.inside ++ u.granted ++ u.sem.waits.queue

-- One step of the current task. A task calls `acquireSem` only when it has nothing to do with the
-- semaphore; the idle task, which must not sleep, never does; and only a task inside calls `releaseSem`.
pub data Step (u : System) : System → Type 0 where
  entered :
      has u.sched.current (engaged u) ≡ false
      → (u.sched.current == u.sched.idle_task) ≡ false
      → Step u (acquire_enter u)
  left :
      {v : System}
      → has u.sched.current (u.granted ++ u.sem.waits.queue) ≡ true
      → acquire_leave u ≡ some v
      → Step u v
  released : {v : System} → has u.sched.current u.inside ≡ true → release u ≡ some v → Step u v
  switched : Step u (record u { sched = schedule u.sched })

pub data Reachable (u : System) : System → Type 0 where
  here : Reachable u u
  next : {v w : System} → Reachable u v → Step v w → Reachable u w
