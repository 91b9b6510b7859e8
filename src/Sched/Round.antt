-- ===== src/Sched/Round.antt =====
-- `schedule` keeps the run queue valid, and serves it in order.
use freak_os.Base.{
  ℕ, zero, suc, ◌≡◌, ◌⊎◌, ◌∙◌, ap, sym, inl, inr, refl, Bool, true, false, ◌&&◌, not, List, [], ◌∷◌,
  ◌++◌, Option, none, some, arith, ◌==◌, if◌then◌else◌, update, has, get_elem?, Bool-cases,
  append-nil,
}
use mathlib.Core.Path.{subst}
use freak_os.Sched.{
  Sched, is_runnable, enqueue_run_queue, dequeue_run_queue, get_head_run_queue, run_task,
  requeue_current, run_next, schedule, head,
}
use freak_os.Sched.Queue.{
  IsQueue, IsSched, is_ready, IsQueue-same, IsQueue-enqueue, IsQueue-dequeue,
}

-- Whether the current task goes back to the queue.
abbrev pub goes_on : Sched → Bool
goes_on s = is_runnable (s.state s.current) && not (s.current == s.idle_task)

-- The queue that `schedule` chooses from.
abbrev pub line : Sched → List ℕ
line s = s.run_list ++ (if goes_on s then s.current ∷ [] else [])

-- Every task that can run, with the current one.
abbrev able : Sched → ℕ → Bool
able s x = is_runnable (s.state x) && not (x == s.idle_task)

abbrev with_current : Sched → ℕ → Sched
with_current s c = record s { current = c }

run_task_lem : (next : ℕ) (s : Sched) → run_task next s ≡ with_current s next
unfolding run_task
run_task_lem next s = elim (Bool-cases (next == s.current)) [
  | inl e ↦ let same : s.current ≡ next = ground arith in rw e (ap (with_current s) same)
  | inr n ↦ rw n refl
]

requeue_current-IsQueue :
    (s : Sched)
    → IsSched s
    → let t = requeue_current s in
      IsQueue t (able s) × (t.run_list ≡ line s) × (t.state ≡ s.state) × (t.idle_task ≡ s.idle_task)
unfolding requeue_current enqueue_run_queue
requeue_current-IsQueue s v =
    let t : Sched = record s { need_resched = update s.need_resched s.current false } in
    let before : IsQueue t (is_ready s) = record {
      queued = v.queued;
      distinct = v.distinct;
      counted = v.counted;
      positive = v.positive;
      slices = v.slices;
    } in
    elim (Bool-cases (goes_on s)) [
      | inl on ↦ rw on (
        IsQueue-enqueue t (is_ready s) (able s) s.current before (ground arith) (λ x. ground arith),
        refl,
        refl,
        refl,
      )
      | inr off ↦ rw (off, append-nil) (IsQueue-same before (λ x. ground arith), refl, refl, refl)
    ]

-- Who runs next, and the queue that is left.
abbrev pub Chosen : List ℕ → ℕ → Sched → Type 0
Chosen [] idle t = (t.current ≡ idle) × (t.run_list ≡ [])
Chosen (x ∷ xs) idle t = (t.current ≡ x) × (t.run_list ≡ xs)

abbrev run_chosen : Sched → Option ℕ → Sched
run_chosen s none = run_task s.idle_task s
run_chosen s (some next) = run_task next (dequeue_run_queue next s)

run_next_lem : (s : Sched) (o : Option ℕ) → head s.run_list ≡ o → run_next s ≡ run_chosen s o
unfolding run_next get_head_run_queue
run_next_lem s o e = chosen_by (head s.run_list) ∙ ap (run_chosen s) e
  where
    chosen_by :
        (h : Option ℕ)
        → elim h [
          | none ↦ run_task s.idle_task s
          | some next ↦ run_task next (dequeue_run_queue next s)
        ]
          ≡ run_chosen s h
    chosen_by none = refl
    chosen_by (some next) = refl

ready_left :
    (s : Sched) (x y : ℕ)
    → is_ready (with_current (dequeue_run_queue x s) x) y ≡ (able s y && not (y == x))
unfolding dequeue_run_queue
ready_left s x y = ground arith

abbrev Served : Sched → List ℕ → Sched → Type 0
Served s xs t =
    IsSched t × Chosen xs s.idle_task t × (t.state ≡ s.state) × (t.idle_task ≡ s.idle_task)

run_next-Chosen :
    (s : Sched) (xs : List ℕ) → s.run_list ≡ xs → IsQueue s (able s) → Served s xs (run_next s)
unfolding dequeue_run_queue
run_next-Chosen s [] e v =
    let runs = run_next_lem s none (ap head e) ∙ run_task_lem s.idle_task s in
    subst (Served s []) (sym runs) (
      record {
        queued = λ x. v.queued x ∙ ground arith;
        distinct = v.distinct;
        counted = v.counted;
        positive = v.positive;
        slices = v.slices;
      },
      (refl, e),
      refl,
      refl,
    )
run_next-Chosen s (x ∷ xs) e v =
    let t = with_current (dequeue_run_queue x s) x in
    let (w, left) = IsQueue-dequeue s (able s) (is_ready t) x xs v e (λ y. ready_left s x y) in
    let runs = run_next_lem s (some x) (ap head e) ∙ run_task_lem x (dequeue_run_queue x s) in
    subst (Served s (x ∷ xs)) (sym runs) (
      record {
        queued = w.queued;
        distinct = w.distinct;
        counted = w.counted;
        positive = w.positive;
        slices = w.slices;
      },
      (refl, left),
      refl,
      refl,
    )

-- On a valid run queue, the queue is valid after `schedule`; the first task in the line of the queue and
-- the current task, if that can go on, runs now, or the idle task if there is none, and the others keep
-- their order. No task's state changes.
pub schedule-Chosen :
    (s : Sched)
    → IsSched s
    → let t = schedule s in
      IsSched t × Chosen (line s) s.idle_task t × (t.state ≡ s.state) × (t.idle_task ≡ s.idle_task)
unfolding schedule
schedule-Chosen s v =
    let (w, l, st, idle) = requeue_current-IsQueue s v in
    let same : (x : ℕ) → able (requeue_current s) x ≡ able s x = λ x. rw (st, idle) refl in
    let (is, chosen, st', idle') =
      run_next-Chosen (requeue_current s) (line s) l (IsQueue-same w same) in
    (is, rw idle at chosen, st' ∙ st, idle' ∙ idle)

-- The task that `schedule` picks is the idle one, or it can run.
pub schedule_runs :
    (s : Sched)
    → IsSched s
    → let t = schedule s in (t.current ≡ s.idle_task) ⊎ (is_runnable (s.state t.current) ≡ true)
schedule_runs s v =
    let (w, l, st, idle) = requeue_current-IsQueue s v in
    let (is, chosen, st', idle') = schedule-Chosen s v in
    runs (line s) (λ x. ap (has x) (sym l) ∙ w.queued x) (schedule s) chosen
  where
    runs :
        (xs : List ℕ)
        → ((x : ℕ) → has x xs ≡ able s x)
        → (t : Sched) → Chosen xs s.idle_task t
        → (t.current ≡ s.idle_task) ⊎ (is_runnable (s.state t.current) ≡ true)
    runs [] all t c = inl c.0
    runs (x ∷ xs) all t c = inr (rw c.0 (ground (arith, all x)))

abbrev pub schedules : ℕ → Sched → Sched
schedules zero s = s
schedules (suc n) s = schedules n (schedule s)

get_elem?-append :
    (xs ys : List ℕ) (i x : ℕ) → get_elem? xs i ≡ some x → get_elem? (xs ++ ys) i ≡ some x
get_elem?-append [] ys i x e = cc
get_elem?-append (a ∷ xs) ys zero x e = e
get_elem?-append (a ∷ xs) ys (suc i) x e = get_elem?-append xs ys i x e

Chosen-first :
    (xs : List ℕ) (idle x : ℕ) (t : Sched)
    → Chosen xs idle t
    → get_elem? xs 0 ≡ some x
    → t.current ≡ x
Chosen-first [] idle x t c e = cc
Chosen-first (y ∷ ys) idle x t c e = cc

Chosen-later :
    (xs : List ℕ) (idle i x : ℕ) (t : Sched)
    → Chosen xs idle t
    → get_elem? xs (suc i) ≡ some x
    → get_elem? t.run_list i ≡ some x
Chosen-later [] idle i x t c e = cc
Chosen-later (y ∷ ys) idle i x t c e = rw c.1 e

-- On a valid run queue, the task in place `i` of the queue runs after `i + 1` calls of `schedule`.
pub schedules-reach :
    (i : ℕ) (s : Sched) (x : ℕ)
    → IsSched s
    → get_elem? s.run_list i ≡ some x
    → (schedules (suc i) s).current ≡ x
schedules-reach zero s x v e =
    let (is, chosen, st, idle) = schedule-Chosen s v in
    Chosen-first (line s) s.idle_task x (schedule s) chosen (get_elem?-append s.run_list _ 0 x e)
schedules-reach (suc i) s x v e =
    let (is, chosen, st, idle) = schedule-Chosen s v in
    let stands =
      get_elem?-append s.run_list (if goes_on s then s.current ∷ [] else []) (suc i) x e in
    schedules-reach i (schedule s) x is
      (Chosen-later (line s) s.idle_task i x (schedule s) chosen stands)

run_task-wait_state : (next : ℕ) (s : Sched) → (run_task next s).wait_state ≡ s.wait_state
run_task-wait_state next s = rw (run_task_lem next s) refl

run_chosen-wait_state : (s : Sched) (o : Option ℕ) → (run_chosen s o).wait_state ≡ s.wait_state
unfolding dequeue_run_queue
run_chosen-wait_state s none = run_task-wait_state s.idle_task s
run_chosen-wait_state s (some x) = run_task-wait_state x (dequeue_run_queue x s)

requeue_current-wait_state : (s : Sched) → (requeue_current s).wait_state ≡ s.wait_state
unfolding requeue_current enqueue_run_queue
requeue_current-wait_state s =
    elim (Bool-cases (is_runnable (s.state s.current) && not (s.current == s.idle_task))) [
      | inl on ↦ rw on refl
      | inr off ↦ rw off refl
    ]

-- `schedule` ends no task's wait.
pub schedule-wait_state : (s : Sched) → (schedule s).wait_state ≡ s.wait_state
unfolding schedule
schedule-wait_state s =
    let t = requeue_current s in
    rw (run_next_lem t (head t.run_list) refl)
      (run_chosen-wait_state t (head t.run_list) ∙ requeue_current-wait_state s)
