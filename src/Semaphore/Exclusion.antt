-- ===== src/Semaphore/Exclusion.antt =====
-- What holds of every reachable system.
use freak_os.Base.{ℕ, ◌≡◌, ◌⊎◌, ◌≢◌, inl, inr, false, ◌++◌, Option, none, some, has, Bool-cases}
use mathlib.Core.Path.{subst}
use freak_os.Semaphore.System.{
  System, acquire_leave, release, Step, Reachable, entered, left, released, switched, here, next,
}
use freak_os.Semaphore.Invariant.{
  IsSystem, Kept, switched-IsSystem, acquire_enter-IsSystem, acquire_leave-IsSystem,
}
use freak_os.Semaphore.Release.{release-IsSystem}

Kept-some : (n : ℕ) (o : Option System) (v : System) → Kept n o → o ≡ some v → IsSystem n v
Kept-some n o v k e = subst (Kept n) e k

Step-IsSystem : (n : ℕ) {u v : System} → IsSystem n u → Step u v → IsSystem n v
Step-IsSystem n {u} k (entered out work) = acquire_enter-IsSystem n u k out work
Step-IsSystem n {u} {v} k (left h e) =
    Kept-some n (acquire_leave u) v (acquire_leave-IsSystem n u k h) e
Step-IsSystem n {u} {v} k (released h e) = Kept-some n (release u) v (release-IsSystem n u k h) e
Step-IsSystem n {u} k switched = switched-IsSystem n u k

-- Every state that the tasks reach from a valid one is valid.
Reachable-IsSystem : (n : ℕ) {u v : System} → IsSystem n u → Reachable u v → IsSystem n v
Reachable-IsSystem n k here = k
Reachable-IsSystem n k (next r s) = Step-IsSystem n (Reachable-IsSystem n k r) s

-- From a valid state, no task reaches a state in which its `acquireSem`, once it was woken, or its
-- `releaseSem` panics.
pub Reachable-safe :
    (n : ℕ) (u v : System)
    → IsSystem n u
    → Reachable u v
    → ((has v.sched.current (v.granted ++ v.sem.waits.queue) ≡ false) ⊎ (acquire_leave v ≢ none))
      × ((has v.sched.current v.inside ≡ false) ⊎ (release v ≢ none))
Reachable-safe n u v k r =
    let w = Reachable-IsSystem n k r in
    (
      elim (Bool-cases (has v.sched.current (v.granted ++ v.sem.waits.queue))) [
        | inl h ↦ inr (λ e. subst (Kept n) e (acquire_leave-IsSystem n v w h))
        | inr out ↦ inl out
      ],
      elim (Bool-cases (has v.sched.current v.inside)) [
        | inl h ↦ inr (λ e. subst (Kept n) e (release-IsSystem n v w h))
        | inr out ↦ inl out
      ],
    )
