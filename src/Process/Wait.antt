-- ===== src/Process/Wait.antt =====
-- What `do_wait` finds.
use freak_os.Base.{
  ℕ, suc, ◌+◌, ◌<◌, ◌≡◌, ◌⊎◌, ◌∙◌, ap, sym, if◌then◌else◌, inl, inr, refl, Bool, true, false, not,
  ◌||◌, List, [], ◌∷◌, ◌++◌, Option, none, some, arith, ◌==◌, has, has-append, length, Bool-cases,
}
use freak_os.Sched.{is_zombie, task_sleeping, schedule}
use freak_os.Sched.Queue.{IsSched}
use freak_os.Sched.Round.{schedule-Chosen, schedule-wait_state}
use freak_os.Tasks.{del_task}
use freak_os.Tasks.Family.{Siblings, IsFamily}
use freak_os.Tasks.Unlink.{del_task-IsFamily}
use freak_os.Process.{
  Kernel, wt_child, Waited, reaped, slept, bad_proc, invalid, zombie_from, find_zombie, reap,
  sleep_for_child, wait_round,
}
use freak_os.Process.Wake.{IsSched-update}

-- None of the tasks has ended.
abbrev pub NoZombie : Kernel → List ℕ → Type 0
NoZombie s xs = (x : ℕ) → has x xs ≡ true → is_zombie (s.sched.state x) ≡ false

not-member : (xs : List ℕ) (a b : ℕ) → has a xs ≡ true → has b xs ≡ false → (a == b) ≡ false
not-member xs a b h n = elim (Bool-cases (a == b)) [
  | inl e ↦ let same : a ≡ b = ground arith in absurd (ground (arith, ap (λ z. has z xs) same))
  | inr d ↦ d
]

NoZombie-cons :
    (s : Kernel) (x : ℕ) (xs : List ℕ)
    → is_zombie (s.sched.state x) ≡ false
    → NoZombie s xs
    → NoZombie s (x ∷ xs)
NoZombie-cons s x xs nz no_zombie a h = elim (Bool-cases (a == x)) [
  | inl e ↦ let here : a ≡ x = ground arith in rw here nz
  | inr e ↦ no_zombie a (ground arith)
]

-- The first of the children `xs` of `p` that has ended.
abbrev pub FirstZombie : Kernel → ℕ → List ℕ → ℕ → Type 0
FirstZombie s p xs task =
    (front : List ℕ) × (behind : List ℕ) × (xs ≡ front ++ task ∷ behind)
    × NoZombie s front
    × (is_zombie (s.sched.state task) ≡ true)
    × (s.tasks.parent task ≡ p)

abbrev is_empty : List ℕ → Bool
is_empty [] = true
is_empty (x ∷ xs) = false

abbrev Searched : Kernel → ℕ → List ℕ → Bool → Option (Bool × Option ℕ) → Type 0
Searched s p xs haskid o =
    ((o ≡ some (haskid || not (is_empty xs), none)) × NoZombie s xs)
    ⊎ ((task : ℕ) × (o ≡ some (true, some task)) × FirstZombie s p xs task)

zombie_from-Searched :
    (n : ℕ) (s : Kernel) (p y c : ℕ) (haskid : Bool) (xs : List ℕ)
    → Siblings s.tasks p y c xs
    → Searched s p xs haskid (zombie_from (suc (length xs + n)) c haskid s)
unfolding zombie_from
zombie_from-Searched n s p y c haskid [] k =
    let last : (c == 0) ≡ true = ground arith in inl (rw last (ground arith), λ x h. ground arith)
zombie_from-Searched n s p y c haskid (x ∷ xs) (e, real, par, young, k) =
    let rest = zombie_from-Searched n s p x (s.tasks.optr x) true xs k in
    let fuel : length (x ∷ xs) + n ≡ suc (length xs + n) = omega arith in
    rw (e, real, fuel)
      (elim (Bool-cases (is_zombie (s.sched.state x))) [
        | inl z ↦ inr (x, rw z refl, ([], xs, refl, λ a h. ground arith, z, par))
        | inr nz ↦ rw nz (elim rest [
          | inl (r, no_zombie) ↦ inl (r ∙ ground arith, NoZombie-cons s x xs nz no_zombie)
          | inr (task, r, (front, behind, split, no_zombie, z, par')) ↦ inr (
            task,
            r,
            (
              x ∷ front,
              behind,
              ap (λ ys. x ∷ ys) split,
              NoZombie-cons s x front nz no_zombie,
              z,
              par',
            ),
          )
        ])
      ])

module _ (n : ℕ) (s : Kernel) (init : ℕ) (xs : List ℕ) (v : IsSched s.sched)
    (f : IsFamily s.tasks s.sched.current xs) (no_idle : has s.sched.idle_task xs ≡ false)
    (no_init : has init xs ≡ false) where
  abbrev current : ℕ
  current = s.sched.current

  -- What a round of a wait for any child comes to.
  abbrev pub Answered : Option Waited → Type 0
  Answered none = ⊥
  Answered (some (reaped task code t)) =
      (front : List ℕ) × (behind : List ℕ) × (xs ≡ front ++ task ∷ behind)
      × NoZombie s front
      × (is_zombie (s.sched.state task) ≡ true)
      × (code ≡ s.exit_code task)
      × IsFamily t.tasks current (front ++ behind)
      × (t.sched ≡ s.sched)
  Answered (some (slept t)) =
      (0 < length xs)
      × NoZombie s xs
      × (t.tasks ≡ s.tasks)
      × IsSched t.sched
      × (t.sched.state current ≡ task_sleeping)
      × (t.sched.wait_state current ≡ wt_child)
  Answered (some bad_proc) = xs ≡ []
  Answered (some invalid) = ⊥

  reap-Answered : (task : ℕ) → FirstZombie s current xs task → Answered (reap init task s)
  unfolding reap
  reap-Answered task (front, behind, split, no_zombie, z, par) =
      let member : has task xs ≡ true =
        rw split (has-append task front (task ∷ behind) ∙ ground arith) in
      let not_idle = not-member xs task s.sched.idle_task member no_idle in
      let not_init = not-member xs task init member no_init in
      let real : ((task == s.sched.idle_task) || (task == init)) ≡ false = ground arith in
      let before : IsFamily s.tasks (s.tasks.parent task) (front ++ task ∷ behind) =
        rw (par, ← split) f in
      let after : IsFamily (del_task task s.tasks) current (front ++ behind) =
        rw par at (del_task-IsFamily s.tasks task front behind before) in
      rw real (front, behind, split, no_zombie, z, refl, after, refl)

  asleep-Answered :
      NoZombie s xs
      → 0 < length xs
      → Answered (some (slept (record s { sched = schedule (sleep_for_child s.sched) })))
  asleep-Answered no_zombie some_child =
      let sleeping = IsSched-update s.sched task_sleeping (sleep_for_child s.sched).wait_state v in
      let (is, chosen, st, idle) = schedule-Chosen (sleep_for_child s.sched) sleeping in
      (
        some_child,
        no_zombie,
        refl,
        is,
        rw st (ground arith),
        rw (schedule-wait_state (sleep_for_child s.sched)) (ground arith),
      )

  search_result :
      (o : Option (Bool × Option ℕ))
      → Searched s current xs false o
      → Answered (elim o [
        | none ↦ none
        | some (haskid, none) ↦ some (
            if haskid
            then slept (record s { sched = schedule (sleep_for_child s.sched) })
            else bad_proc)
        | some (haskid, some task) ↦ reap init task s
      ])
  search_result o (inl (e, no_zombie)) = rw e (kids xs refl)
    where
      kids :
          (ys : List ℕ)
          → ys ≡ xs
          → Answered (
              some (
                if not (is_empty ys)
                then slept (record s { sched = schedule (sleep_for_child s.sched) })
                else bad_proc))
      kids [] same = sym same
      kids (y ∷ ys) same = asleep-Answered no_zombie (omega (arith, ap length same))
  search_result o (inr (task, e, first)) = rw e (reap-Answered task first)

  -- A task that waits for any child, none of which is the idle task or `init`. With fuel for its children, a
  -- round of `do_wait` does not panic: it reaps the youngest child that has ended, with the code of that
  -- child, which leaves the others as the children; where none has ended, the task is put to sleep, waits for
  -- a child, and the run queue is valid; and it has nothing to wait for only without children.
  pub wait_round-Answered : Answered (wait_round (suc (length xs + n)) init 0 s)
  unfolding wait_round find_zombie
  wait_round-Answered =
      search_result (zombie_from (suc (length xs + n)) (s.tasks.cptr current) false s)
        (zombie_from-Searched n s current 0 (s.tasks.cptr current) false xs f.chain)
