-- ===== src/Process/Wake.antt =====
-- Waking a task that waits for a child.
use freak_os.Base.{
  ℕ, ◌≡◌, ◌⊎◌, ◌∙◌, sym, ap, inl, inr, refl, true, false, Option, none, some, arith, ◌==◌,
  Bool-cases, update,
}
use freak_os.Sched.{
  Sched, TaskState, task_uninit, task_sleeping, task_runnable, task_zombie, is_runnable, is_zombie,
  wakeup_task,
}
use freak_os.Sched.Queue.{IsSched, Woken, wakeup_task-Woken, wakeup_task-wait_state}
use freak_os.Process.{wt_child, wake_waiting}

-- The task waits for a child, or can run.
abbrev pub IsAlert : Sched → ℕ → Type 0
IsAlert s x = ((s.wait_state x == wt_child) ≡ true) ⊎ (is_runnable (s.state x) ≡ true)

-- What waking some task leaves of the others.
pub record IsRoused (s t : Sched) : Type 0 where
  pub sched : IsSched t
  pub current : t.current ≡ s.current
  pub idle : t.idle_task ≡ s.idle_task
  pub zombies : (x : ℕ) → is_zombie (t.state x) ≡ is_zombie (s.state x)
  pub alert : (x : ℕ) → IsAlert s x → IsAlert t x
  pub runs : (x : ℕ) → is_runnable (s.state x) ≡ true → is_runnable (t.state x) ≡ true

pub IsRoused-same : (s : Sched) → IsSched s → IsRoused s s
IsRoused-same s v = record {
  sched = v;
  current = refl;
  idle = refl;
  zombies = λ x. refl;
  alert = λ x a. a;
  runs = λ x r. r;
}

pub IsRoused-twice : {s t u : Sched} → IsRoused s t → IsRoused t u → IsRoused s u
IsRoused-twice a b = record {
  sched = b.sched;
  current = b.current ∙ a.current;
  idle = b.idle ∙ a.idle;
  zombies = λ x. b.zombies x ∙ a.zombies x;
  alert = λ x h. b.alert x (a.alert x h);
  runs = λ x h. b.runs x (a.runs x h);
}

runnable-not_zombie : (o : TaskState) → is_runnable o ≡ true → is_zombie o ≡ false
runnable-not_zombie task_uninit r = refl
runnable-not_zombie task_sleeping r = refl
runnable-not_zombie task_runnable r = refl
runnable-not_zombie task_zombie r = ground arith

wakeup_task-Roused :
    (task : ℕ) (s : Sched) (o : Option Sched)
    → wakeup_task task s ≡ o
    → is_zombie (s.state task) ≡ false
    → Woken task s o
    → (t : Sched) × (o ≡ some t) × IsRoused s t × (is_runnable (t.state task) ≡ true)
wakeup_task-Roused task s none e live w = absurd (ground arith)
wakeup_task-Roused task s (some t) e live (sched, run, others, cur, idle) = (
  t,
  refl,
  record {
    sched = sched;
    current = cur;
    idle = idle;
    zombies = λ x. elim (Bool-cases (x == task)) [
      | inl h ↦
          let here : x ≡ task = ground arith in
          rw here (runnable-not_zombie (t.state task) run ∙ sym live)
      | inr h ↦ ap is_zombie (others x h)
    ];
    alert = λ x a. elim (Bool-cases (x == task)) [
      | inl h ↦ let here : x ≡ task = ground arith in inr (rw here run)
      | inr h ↦ rw (wakeup_task-wait_state task x s t e h, others x h) a
    ];
    runs = λ x r. elim (Bool-cases (x == task)) [
      | inl h ↦ let here : x ≡ task = ground arith in rw here run
      | inr h ↦ rw (others x h) r
    ];
  },
  run,
)

pub wake_waiting-Roused :
    (task : ℕ) (s : Sched)
    → IsSched s
    → is_zombie (s.state task) ≡ false
    → (t : Sched) × (wake_waiting task s ≡ some t)
      × IsRoused s t
      × (IsAlert s task → is_runnable (t.state task) ≡ true)
unfolding wake_waiting
wake_waiting-Roused task s v live = elim (Bool-cases (s.wait_state task == wt_child)) [
  | inl w ↦
      let (t, e, r, run) =
        wakeup_task-Roused task s (wakeup_task task s) refl live (wakeup_task-Woken task s v) in
      (t, rw w e, r, λ a. run)
  | inr w ↦ (s, rw w refl, IsRoused-same s v, λ a. ground arith)
]

-- What the current task is and waits for decides nothing about the queue.
pub IsSched-update :
    (s : Sched) (o : TaskState) (w : ℕ → ℕ)
    → IsSched s
    → IsSched (record s { state = update s.state s.current o; wait_state = w })
IsSched-update s o w v = record {
  queued = λ x. v.queued x ∙ ground arith;
  distinct = v.distinct;
  counted = v.counted;
  positive = v.positive;
  slices = v.slices;
}
