-- ===== src/Semaphore/Release.antt =====
-- `releaseSem` keeps the invariant.
use freak_os.Base.{
  ℕ, ◌≡◌, inl, inr, refl, true, false, List, [], ◌∷◌, Option, none, some, arith, ◌==◌, has, ==_refl,
}
use freak_os.Sched.{Sched, wakeup_task}
use freak_os.Sched.Queue.{Woken, wakeup_task-Woken}
use freak_os.Wait.{waitlist_get_first, wakeup_wait, waitlist_del}
use freak_os.Semaphore.{up}
use freak_os.Semaphore.System.{System, release}
use freak_os.Semaphore.Invariant.{IsSystem, Kept, length-erase}

abbrev system : List ℕ → ℕ → (ℕ → ℕ) → Sched → List ℕ → List ℕ → System
system queue value flags sched inside granted = record {
  sem = record { value = value; waits = record { queue = queue; flags = flags } };
  sched = sched;
  inside = inside;
  granted = granted;
}

module _ (n value : ℕ) (flags : ℕ → ℕ) (s : Sched) (inside granted : List ℕ)
    (h : has s.current inside ≡ true) where
  release_free :
      IsSystem n (system [] value flags s inside granted)
      → Kept n (release (system [] value flags s inside granted))
  unfolding release up waitlist_get_first
  release_free v = record {
    small = v.small;
    tasks = v.tasks;
    balance = omega (arith, v.balance, v.small, length-erase s.current inside h);
    waits = inr refl;
    asleep = v.asleep;
    marked = v.marked;
    distinct = v.distinct;
  }

  -- The first task of the queue is woken to go inside.
  release-Woken :
      (w : ℕ) (ws : List ℕ) (o : Option Sched)
      → wakeup_task w s ≡ o
      → Woken w s o
      → IsSystem n (system (w ∷ ws) value flags s inside granted)
      → Kept n (release (system (w ∷ ws) value flags s inside granted))
  unfolding release up waitlist_get_first wakeup_wait waitlist_del
  release-Woken w ws none e dead v = absurd (ground (arith, v.asleep w))
  release-Woken w ws (some t) e (is, runs, others, cur, idle) v =
      let away : has w ws ≡ false = v.distinct.0 in
      rw (release, up, wakeup_wait, e, ==_refl w)
        (record {
          small = v.small;
          tasks = is;
          balance = omega (arith, v.balance, length-erase s.current inside h);
          waits = elim v.waits [ inl empty ↦ inl empty | inr bad ↦ absurd cc ];
          asleep = λ x k.
              let (r, z, c, i) = v.asleep x (ground arith) in
              let far : (x == w) ≡ false = ground arith in
              let kept = others x far in (rw kept r, rw kept z, rw cur c, rw idle i);
          marked = λ x k. ground (arith, v.marked x);
          distinct = v.distinct.1;
        })

  release_queue :
      (queue : List ℕ)
      → IsSystem n (system queue value flags s inside granted)
      → Kept n (release (system queue value flags s inside granted))
  release_queue [] v = release_free v
  release_queue (w ∷ ws) v =
      release-Woken w ws (wakeup_task w s) refl (wakeup_task-Woken w s v.tasks) v

-- `up` does not panic: who waits is no zombie.
pub release-IsSystem :
    (n : ℕ) (u : System) → IsSystem n u → has u.sched.current u.inside ≡ true → Kept n (release u)
release-IsSystem n u v h =
    release_queue n u.sem.value u.sem.waits.flags u.sched u.inside u.granted h u.sem.waits.queue v
