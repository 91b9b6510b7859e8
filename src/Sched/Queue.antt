-- ===== src/Sched/Queue.antt =====
-- The invariant of the run queue, and what keeps it.
use freak_os.Base.{
  ℕ, ◌%◌, ◌^◌, ◌≤◌, ◌<◌, ◌≡◌, ◌∙◌, ap, sym, inl, inr, refl, Bool, true, false, ◌&&◌, ◌||◌, not,
  List, [], ◌∷◌, ◌++◌, Option, none, some, arith, ◌==◌, update, erase, has, has-append, Distinct,
  length, length-append, Bool-cases,
}
use freak_os.Sched.{
  Sched, is_runnable, is_zombie, enqueue_run_queue, dequeue_run_queue, wakeup_task, task_runnable,
  wt_notwait,
}

-- The queue holds the tasks of a set, each once. Their slices are neither used up nor too long.
pub record IsQueue (s : Sched) (p : ℕ → Bool) : Type 0 where
  pub queued : (x : ℕ) → has x s.run_list ≡ p x
  pub distinct : Distinct s.run_list
  pub counted : s.task_num ≡ length s.run_list % 2 ^ 32
  pub positive : 0 < s.max_time_slice
  pub slices :
      (x : ℕ) → has x s.run_list ≡ true → (0 < s.time_slice x) × (s.time_slice x ≤ s.max_time_slice)

-- A task that can run and does not: it is runnable and neither current nor idle.
abbrev pub is_ready : Sched → ℕ → Bool
is_ready s x = is_runnable (s.state x) && not (x == s.current) && not (x == s.idle_task)

-- The invariant: the queue holds just the ready tasks.
abbrev pub IsSched : Sched → Type 0
IsSched s = IsQueue s (is_ready s)

Distinct-append : (xs : List ℕ) (a : ℕ) → Distinct xs → has a xs ≡ false → Distinct (xs ++ a ∷ [])
Distinct-append [] a d n = ground arith
Distinct-append (x ∷ xs) a d n = ground (arith, has-append x xs (a ∷ []), Distinct-append xs a d.1)

pub IsQueue-same : {s : Sched} {p q : ℕ → Bool} → IsQueue s p → ((x : ℕ) → q x ≡ p x) → IsQueue s q
IsQueue-same v same = record {
  queued = λ x. v.queued x ∙ sym (same x);
  distinct = v.distinct;
  counted = v.counted;
  positive = v.positive;
  slices = v.slices;
}

pub IsQueue-enqueue :
    (s : Sched) (p q : ℕ → Bool) (task : ℕ)
    → IsQueue s p
    → p task ≡ false
    → ((x : ℕ) → q x ≡ ((x == task) || p x))
    → IsQueue (enqueue_run_queue task s) q
unfolding enqueue_run_queue
IsQueue-enqueue s p q task v out same =
    let absent : has task s.run_list ≡ false = v.queued task ∙ out in
    record {
      queued = λ x. ground (arith, v.queued x, same x, has-append x s.run_list (task ∷ []));
      distinct = Distinct-append s.run_list task v.distinct absent;
      counted = omega (arith, v.counted, length-append s.run_list (task ∷ []));
      positive = v.positive;
      slices = λ x h. ground (arith, v.slices x, v.positive, has-append x s.run_list (task ∷ []));
    }

-- The head of the queue leaves it.
pub IsQueue-dequeue :
    (s : Sched) (p q : ℕ → Bool) (x : ℕ) (xs : List ℕ)
    → IsQueue s p
    → s.run_list ≡ x ∷ xs
    → ((y : ℕ) → q y ≡ (p y && not (y == x)))
    → IsQueue (dequeue_run_queue x s) q × ((dequeue_run_queue x s).run_list ≡ xs)
unfolding dequeue_run_queue
IsQueue-dequeue s p q x xs v e same =
    let d : (has x xs ≡ false) × Distinct xs = rw e at v.distinct in
    let left : erase x s.run_list ≡ xs = rw e (ground arith) in
    (
      record {
        queued = λ y. ground (arith, left, e, v.queued y, same y);
        distinct = rw left d.1;
        counted = rw left (omega (arith, v.counted, ap length e));
        positive = v.positive;
        slices = λ y h. v.slices y (ground (arith, left, e));
      },
      left,
    )

-- What `wakeup_task` leaves.
abbrev pub Woken : ℕ → Sched → Option Sched → Type 0
Woken task s none = is_zombie (s.state task) ≡ true
Woken task s (some t) =
    IsSched t
    × (is_runnable (t.state task) ≡ true)
    × ((x : ℕ) → (x == task) ≡ false → t.state x ≡ s.state x)
    × (t.current ≡ s.current)
    × (t.idle_task ≡ s.idle_task)

-- On a valid run queue, `wakeup_task` panics only on a zombie; else the task is runnable, the state of
-- every other task is as before, the same task runs, and the run queue is valid.
pub wakeup_task-Woken : (task : ℕ) (s : Sched) → IsSched s → Woken task s (wakeup_task task s)
unfolding wakeup_task enqueue_run_queue
wakeup_task-Woken task s v =
    let t : Sched = record s {
      state = update s.state task task_runnable;
      wait_state = update s.wait_state task wt_notwait;
    } in
    let before : IsQueue t (is_ready s) = record {
      queued = v.queued;
      distinct = v.distinct;
      counted = v.counted;
      positive = v.positive;
      slices = v.slices;
    } in
    elim (Bool-cases (is_zombie (s.state task))) [
      | inl z ↦ rw z z
      | inr nz ↦ elim (Bool-cases (is_runnable (s.state task))) [
        | inl r ↦ rw (nz, r) (v, r, λ x n. refl, refl, refl)
        | inr nr ↦ elim (Bool-cases (not (task == s.current) && not (task == s.idle_task))) [
          | inl other ↦
              let after =
                IsQueue-enqueue t (is_ready s) (is_ready t) task before (ground arith)
                  (λ x. ground arith) in
              rw (nz, nr, other) (after, ground arith, λ x n. ground arith, refl, refl)
          | inr own ↦
              rw (nz, nr, own)
                (
                  IsQueue-same before (λ x. ground arith),
                  ground arith,
                  λ x n. ground arith,
                  refl,
                  refl,
                )
        ]
      ]
    ]

-- Every other task keeps what it waits for.
pub wakeup_task-wait_state :
    (task x : ℕ) (s t : Sched)
    → wakeup_task task s ≡ some t
    → (x == task) ≡ false
    → t.wait_state x ≡ s.wait_state x
unfolding wakeup_task enqueue_run_queue
wakeup_task-wait_state task x s t e ne = elim (Bool-cases (is_zombie (s.state task))) [
  | inl z ↦ let impossible = rw z at e in ground arith
  | inr nz ↦ elim (Bool-cases (is_runnable (s.state task))) [
    | inl r ↦ let same = rw (nz, r) at e in ground arith
    | inr nr ↦ elim (Bool-cases (not (task == s.current) && not (task == s.idle_task))) [
      | inl other ↦ let same = rw (nz, nr, other) at e in ground arith
      | inr own ↦ let same = rw (nz, nr, own) at e in ground arith
    ]
  ]
]
