-- ===== src/Semaphore/Invariant.antt =====
-- The invariant of a system of tasks that share a semaphore, and that each operation keeps it.
use freak_os.Base.{
  ℕ, ◌+◌, ◌<◌, ◌^◌, ◌≡◌, ◌⊎◌, ◌∙◌, inl, inr, refl, true, false, List, [], ◌∷◌, ◌++◌, Option, none,
  some, arith, ◌==◌, erase, has, has-append, Distinct, length, update, Bool-cases,
}
use freak_os.Sched.{Sched, is_runnable, is_zombie, task_sleeping, schedule}
use freak_os.Sched.Queue.{IsSched}
use freak_os.Sched.Round.{schedule-Chosen, schedule_runs}
use freak_os.Wait.{waitlist_add, wait_init, waitlist_is_in_list, wait_add_current, wait_del_current}
use freak_os.Semaphore.{down_enter, down_leave, wt_ksem, is_positive}
use freak_os.Semaphore.System.{System, acquire_enter, acquire_leave, engaged}

-- A task in the queue sleeps, and it is neither the task that runs nor the idle one.
abbrev pub IsAsleep : Sched → ℕ → Type 0
IsAsleep s x =
    (is_runnable (s.state x) ≡ false)
    × (is_zombie (s.state x) ≡ false)
    × ((x == s.current) ≡ false)
    × ((x == s.idle_task) ≡ false)

-- The units of the semaphore are its value, the tasks inside, and those that were woken to go inside.
-- While there is a unit left nobody waits.
pub record IsSystem (n : ℕ) (u : System) : Type 0 where
  pub small : n < 2 ^ 31
  pub tasks : IsSched u.sched
  pub balance : u.sem.value + length u.inside + length u.granted ≡ n
  pub waits : (u.sem.value ≡ 0) ⊎ (u.sem.waits.queue ≡ [])
  pub asleep : (x : ℕ) → has x u.sem.waits.queue ≡ true → IsAsleep u.sched x
  pub marked : (x : ℕ) → has x u.granted ≡ true → u.sem.waits.flags x ≡ wt_ksem
  pub distinct : Distinct u.sem.waits.queue

-- A result that is no panic, and is valid.
abbrev pub Kept : ℕ → Option System → Type 0
Kept n none = ⊥
Kept n (some u) = IsSystem n u

pub length-erase : (a : ℕ) (xs : List ℕ) → has a xs ≡ true → length (erase a xs) + 1 ≡ length xs
length-erase a [] h = cc
length-erase a (x ∷ xs) h = ground (arith, length-erase a xs)

has-erase : (a x : ℕ) (xs : List ℕ) → has x (erase a xs) ≡ true → has x xs ≡ true
has-erase a x [] h = h
has-erase a x (y ∷ ys) h = ground (arith, has-erase a x ys)

Distinct-append : (xs : List ℕ) (a : ℕ) → Distinct xs → has a xs ≡ false → Distinct (xs ++ a ∷ [])
Distinct-append [] a d n = ground arith
Distinct-append (x ∷ xs) a d n = ground (arith, has-append x xs (a ∷ []), Distinct-append xs a d.1)

-- Who sleeps goes on sleeping through `schedule`.
schedule-IsAsleep :
    (s : Sched) (x : ℕ)
    → IsSched s
    → is_runnable (s.state x) ≡ false
    → is_zombie (s.state x) ≡ false
    → (x == s.idle_task) ≡ false
    → IsAsleep (schedule s) x
schedule-IsAsleep s x v r z i =
    let (is, chosen, st, idle) = schedule-Chosen s v in
    elim (schedule_runs s v) [
      | inl e ↦ (rw st r, rw st z, rw e i, rw idle i)
      | inr e ↦ (rw st r, rw st z, other e, rw idle i)
    ]
  where
    other : is_runnable (s.state (schedule s).current) ≡ true → (x == (schedule s).current) ≡ false
    other e = elim (Bool-cases (x == (schedule s).current)) [
      | inl same ↦ absurd (ground arith)
      | inr apart ↦ apart
    ]

pub switched-IsSystem :
    (n : ℕ) (u : System) → IsSystem n u → IsSystem n (record u { sched = schedule u.sched })
switched-IsSystem n u v = record {
  small = v.small;
  tasks = (schedule-Chosen u.sched v.tasks).0;
  balance = v.balance;
  waits = v.waits;
  asleep = λ x h. let (r, z, c, i) = v.asleep x h in schedule-IsAsleep u.sched x v.tasks r z i;
  marked = v.marked;
  distinct = v.distinct;
}

-- The scheduler after the current task has gone to sleep, before another one runs.
abbrev put_to_sleep : ℕ → Sched → Sched
put_to_sleep wait_state s = record s {
  state = update s.state s.current task_sleeping;
  wait_state = update s.wait_state s.current wait_state;
}

put_to_sleep-IsSched :
    (wait_state : ℕ) (s : Sched) → IsSched s → IsSched (put_to_sleep wait_state s)
put_to_sleep-IsSched wait_state s v = record {
  queued = λ x. v.queued x ∙ ground arith;
  distinct = v.distinct;
  counted = v.counted;
  positive = v.positive;
  slices = v.slices;
}

has-parts :
    (a : ℕ) (xs ys zs : List ℕ)
    → has a (xs ++ ys ++ zs) ≡ false
    → (has a xs ≡ false) × (has a ys ≡ false) × (has a zs ≡ false)
has-parts a xs ys zs h = ground (arith, has-append a (xs ++ ys) zs, has-append a xs ys)

pub acquire_enter-IsSystem :
    (n : ℕ) (u : System)
    → IsSystem n u
    → has u.sched.current (engaged u) ≡ false
    → (u.sched.current == u.sched.idle_task) ≡ false
    → IsSystem n (acquire_enter u)
unfolding acquire_enter down_enter wait_add_current wait_init waitlist_add
acquire_enter-IsSystem n u v out work = elim (Bool-cases (is_positive u.sem.value)) [
  | inl pos ↦ rw pos (record {
    small = v.small;
    tasks = v.tasks;
    balance = ground (arith, v.balance, v.small);
    waits = elim v.waits [ inl empty ↦ absurd (ground arith) | inr free ↦ inr free ];
    asleep = v.asleep;
    marked = v.marked;
    distinct = v.distinct;
  })
  | inr neg ↦
      let c = u.sched.current in
      let s = put_to_sleep wt_ksem u.sched in
      let is = put_to_sleep-IsSched wt_ksem u.sched v.tasks in
      let empty : u.sem.value ≡ 0 = ground (arith, v.balance, v.small) in
      let (o, g, q) = has-parts c u.inside u.granted u.sem.waits.queue out in
      rw neg (record {
        small = v.small;
        tasks = (schedule-Chosen s is).0;
        balance = v.balance;
        waits = inl empty;
        asleep = λ x h.
            schedule-IsAsleep s x is
              (ground (arith, v.asleep x, has-append x u.sem.waits.queue (c ∷ [])))
              (ground (arith, v.asleep x, has-append x u.sem.waits.queue (c ∷ [])))
              (ground (arith, v.asleep x, has-append x u.sem.waits.queue (c ∷ [])));
        marked = λ x h. ground (arith, v.marked x);
        distinct = Distinct-append u.sem.waits.queue c v.distinct q;
      })
]

acquire_leave_lem :
    (n : ℕ) (u : System)
    → IsSystem n u
    → has u.sched.current (u.granted ++ u.sem.waits.queue) ≡ true
    → acquire_leave u
      ≡ some (record u {
        inside = u.sched.current ∷ u.inside;
        granted = erase u.sched.current u.granted;
      })
unfolding acquire_leave down_leave wait_del_current waitlist_is_in_list
acquire_leave_lem n u v h =
    let c = u.sched.current in
    let awake : has c u.sem.waits.queue ≡ false = ground (arith, v.asleep c) in
    let woken : has c u.granted ≡ true = ground (arith, has-append c u.granted u.sem.waits.queue) in
    rw (awake, v.marked c woken) refl

-- `down` returns 0 in a task that was woken, so that `acquireSem` does not panic.
pub acquire_leave-IsSystem :
    (n : ℕ) (u : System)
    → IsSystem n u
    → has u.sched.current (u.granted ++ u.sem.waits.queue) ≡ true
    → Kept n (acquire_leave u)
acquire_leave-IsSystem n u v h =
    let c = u.sched.current in
    let awake : has c u.sem.waits.queue ≡ false = ground (arith, v.asleep c) in
    let woken : has c u.granted ≡ true = ground (arith, has-append c u.granted u.sem.waits.queue) in
    rw (acquire_leave_lem n u v h) (record {
      small = v.small;
      tasks = v.tasks;
      balance = omega (arith, v.balance, length-erase c u.granted woken);
      waits = v.waits;
      asleep = v.asleep;
      marked = λ x k. v.marked x (has-erase c x u.granted k);
      distinct = v.distinct;
    })
