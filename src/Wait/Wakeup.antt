-- ===== src/Wait/Wakeup.antt =====
-- `wakeupAll` wakes the whole queue.
use freak_os.Base.{
  ℕ, ◌≡◌, ◌⊎◌, sym, inl, inr, refl, Bool, true, false, List, [], ◌∷◌, Option, none, some, arith,
  ◌==◌, if◌then◌else◌, update, has, Bool-cases, Option-cases, ==_refl,
}
use mathlib.Core.Path.{subst}
use freak_os.Sched.{Sched, is_runnable, is_zombie, wakeup_task}
use freak_os.Sched.Queue.{IsSched, Woken, wakeup_task-Woken}
use freak_os.Wait.{Waits, wakeup_wait, waitlist_del, wakeup_each, wakeup_all}

-- Every task of the list was woken for the reason given, no other wait has changed, and the queue is
-- empty, or as before if the waits stay in it.
abbrev pub AllWoken : List ℕ → ℕ → Bool → Waits → Sched → Option (Waits × Sched) → Type 0
AllWoken xs wakeup_flags del w s none = ⊥
AllWoken xs wakeup_flags del w s (some (v, t)) =
    IsSched t
    × ((x : ℕ) → has x xs ≡ true → (is_runnable (t.state x) ≡ true) × (v.flags x ≡ wakeup_flags))
    × ((x : ℕ) → is_runnable (s.state x) ≡ true → is_runnable (t.state x) ≡ true)
    × ((x : ℕ) → has x xs ≡ false → v.flags x ≡ w.flags x)
    × (v.queue ≡ (if del then [] else w.queue))

module _ (wakeup_flags : ℕ) (del : Bool) where
  -- The wait after its task was woken.
  abbrev marked : ℕ → Waits → Waits
  marked x w = record (if del then waitlist_del x w else w) {
    flags = update w.flags x wakeup_flags;
  }

  wakeup_wait_lem :
      (x : ℕ) (w : Waits) (s t : Sched)
      → wakeup_task x s ≡ some t
      → wakeup_wait x wakeup_flags del w s ≡ some (marked x w, t)
  unfolding wakeup_wait waitlist_del
  wakeup_wait_lem x w s t e = elim (Bool-cases del) [
    | inl d ↦ rw (wakeup_wait, e, d) refl
    | inr d ↦ rw (wakeup_wait, e, d) refl
  ]

  abbrev NoneDead : List ℕ → Sched → Type 0
  NoneDead xs s = (x : ℕ) → has x xs ≡ true → is_zombie (s.state x) ≡ false

  zombie_lem : (s : Sched) (x : ℕ) → is_runnable (s.state x) ≡ true → is_zombie (s.state x) ≡ false
  zombie_lem s x r = ground arith

  -- The first of the list, and then the others.
  then_others :
      (x : ℕ) (xs : List ℕ) (w : Waits) (s t : Sched) (o : Option (Waits × Sched))
      → (w.queue ≡ x ∷ xs) ⊎ (del ≡ false)
      → is_runnable (t.state x) ≡ true
      → ((y : ℕ) → (y == x) ≡ false → t.state y ≡ s.state y)
      → AllWoken xs wakeup_flags del (marked x w) t o
      → AllWoken (x ∷ xs) wakeup_flags del w s o
  unfolding waitlist_del
  then_others x xs w s t none q runs others k = k
  then_others x xs w s t (some (v, t')) q runs others (is, woken, stay, kept, queue) = (
    is,
    λ y h. elim (Bool-cases (has y xs)) [
      | inl later ↦ woken y later
      | inr first ↦
          let same : y ≡ x = ground arith in
          (rw same (stay x runs), rw same (ground (arith, kept x)))
    ],
    λ y h.
        stay y
          (elim (Bool-cases (y == x)) [ inl same ↦ ground arith | inr far ↦ rw (others y far) h ]),
    λ y h. ground (arith, kept y),
    elim (Bool-cases del) [ inl d ↦ rw d (rw d at queue) | inr d ↦ rw d (rw d at queue) ],
  )

  wakeup_each-AllWoken :
      (xs : List ℕ) (w : Waits) (s : Sched)
      → IsSched s
      → NoneDead xs s
      → (w.queue ≡ xs) ⊎ (del ≡ false)
      → AllWoken xs wakeup_flags del w s (wakeup_each xs wakeup_flags del w s)
  unfolding wakeup_each waitlist_del
  wakeup_each-AllWoken [] w s v alive q = (
    v,
    λ x h. absurd cc,
    λ x h. h,
    λ x h. refl,
    elim (Bool-cases del) [
      | inl d ↦ elim q [ inl e ↦ rw d e | inr e ↦ absurd cc ]
      | inr d ↦ rw d refl
    ],
  )
  wakeup_each-AllWoken (x ∷ xs) w s v alive q = elim (Option-cases (wakeup_task x s)) [
    | inl e ↦ absurd (
        let dead : is_zombie (s.state x) ≡ true = subst (Woken x s) e (wakeup_task-Woken x s v) in
        ground (arith, alive x))
    | inr (t, e) ↦
        let (is, runs, others, cur, idle) = subst (Woken x s) e (wakeup_task-Woken x s v) in
        let each : wakeup_each (x ∷ xs) wakeup_flags del w s
            ≡ wakeup_each xs wakeup_flags del (marked x w) t =
          rw (wakeup_each, wakeup_wait_lem x w s t e) refl in
        let alive' : NoneDead xs t = λ y h. elim (Bool-cases (y == x)) [
          | inl same ↦ let eq : y ≡ x = ground arith in rw eq (zombie_lem t x runs)
          | inr far ↦ rw (others y far) (alive y (ground arith))
        ] in
        let q' : ((marked x w).queue ≡ xs) ⊎ (del ≡ false) = elim (Bool-cases del) [
          | inl d ↦ elim q [ inl eq ↦ inl (rw (d, eq, ==_refl x) refl) | inr eq ↦ inr eq ]
          | inr d ↦ inr d
        ] in
        subst (AllWoken (x ∷ xs) wakeup_flags del w s) (sym each) (
          then_others x xs w s t (wakeup_each xs wakeup_flags del (marked x w) t) q runs others
            (wakeup_each-AllWoken xs (marked x w) t is alive' q'))
  ]

-- On a valid run queue, and with no zombie in the wait queue, `wakeupAll` does not panic: every task of
-- the wait queue can run and finds the reason given in its wait, no other wait changes, who could run
-- still can, the run queue is valid, and the wait queue is empty, or as before if `del` is not set.
pub wakeup_all-AllWoken :
    (wakeup_flags : ℕ) (del : Bool) (w : Waits) (s : Sched)
    → IsSched s
    → ((x : ℕ) → has x w.queue ≡ true → is_zombie (s.state x) ≡ false)
    → AllWoken w.queue wakeup_flags del w s (wakeup_all wakeup_flags del w s)
unfolding wakeup_all
wakeup_all-AllWoken wakeup_flags del w s v alive =
    wakeup_each-AllWoken wakeup_flags del w.queue w s v alive (inl refl)
