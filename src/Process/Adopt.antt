-- ===== src/Process/Adopt.antt =====
-- The loop of `do_exit` that gives the children of the ending task to `init`, and wakes it.
use freak_os.Base.{
  ℕ, suc, ◌+◌, ◌≡◌, ◌∙◌, inl, inr, refl, true, false, List, [], ◌∷◌, some, arith, ◌==◌, has, length,
  Bool-cases,
}
use freak_os.Sched.{is_runnable, is_zombie}
use freak_os.Sched.Queue.{IsSched}
use freak_os.Tasks.{give_child}
use freak_os.Tasks.Family.{IsFamily}
use freak_os.Tasks.Exit.{IsExiting, give_child-left, reverse_onto}
use freak_os.Process.{Kernel, adopt_child, adopt_children}
use freak_os.Process.Wake.{IsAlert, IsRoused, IsRoused-same, IsRoused-twice, wake_waiting-Roused}

adopt_child-Adopted :
    (init : ℕ) (s : Kernel)
    → IsSched s.sched
    → is_zombie (s.sched.state init) ≡ false
    → (t : Kernel) × (adopt_child init s ≡ some t)
      × (t.tasks ≡ give_child init s.sched.current s.tasks)
      × (t.exit_code ≡ s.exit_code)
      × (t.spaces ≡ s.spaces)
      × IsRoused s.sched t.sched
      × (is_zombie (s.sched.state (s.tasks.cptr s.sched.current)) ≡ true
          → IsAlert s.sched init
          → is_runnable (t.sched.state init) ≡ true)
unfolding adopt_child
adopt_child-Adopted init s v live =
    let given = give_child init s.sched.current s.tasks in
    elim (Bool-cases (is_zombie (s.sched.state (s.tasks.cptr s.sched.current)))) [
      | inl z ↦
          let (t, e, r, run) = wake_waiting-Roused init s.sched v live in
          (record s { sched = t; tasks = given }, rw (z, e) refl, refl, refl, refl, r, λ h. run)
      | inr nz ↦ (
        record s { tasks = given },
        rw nz refl,
        refl,
        refl,
        refl,
        IsRoused-same s.sched v,
        λ h. ground arith,
      )
    ]

-- What the loop leaves: `t` after `s`, with the children `xs` of `current` given to `init`.
pub record IsAdopted (init current : ℕ) (xs ys : List ℕ) (s t : Kernel) : Type 0 where
  pub family : IsFamily t.tasks init (reverse_onto xs ys)
  pub left : t.tasks.cptr current ≡ 0
  pub code : t.exit_code ≡ s.exit_code
  pub spaces : t.spaces ≡ s.spaces
  pub roused : IsRoused s.sched t.sched
  pub told :
      (x : ℕ)
      → has x xs ≡ true
      → is_zombie (s.sched.state x) ≡ true
      → IsAlert s.sched init
      → is_runnable (t.sched.state init) ≡ true

pub adopt_children-Adopted :
    (n : ℕ) (s : Kernel) (init current y : ℕ) (xs ys : List ℕ)
    → s.sched.current ≡ current
    → IsExiting s.tasks init current y xs ys
    → IsSched s.sched
    → is_zombie (s.sched.state init) ≡ false
    → (t : Kernel) × (adopt_children (suc (length xs + n)) init s ≡ some t)
      × IsAdopted init current xs ys s t
unfolding adopt_children
adopt_children-Adopted n s init current y [] ys c v q live =
    let none_left : (s.tasks.cptr s.sched.current == 0) ≡ true = rw c (ground (arith, v.left)) in
    (
      s,
      rw none_left refl,
      record {
        family = v.given;
        left = v.left;
        code = refl;
        spaces = refl;
        roused = IsRoused-same s.sched q;
        told = λ x h. ground arith;
      },
    )
adopt_children-Adopted n s init current y (x ∷ xs) ys c v q live =
    let (e, real, par, young, rest) = v.left in
    let (t, step, tasks, code, spaces, roused, told) = adopt_child-Adopted init s q live in
    let given : t.tasks ≡ give_child init current s.tasks = rw (← c) tasks in
    let (u, run, a) =
      adopt_children-Adopted n t init current x xs (x ∷ ys) (roused.current ∙ c)
        (rw given (give_child-left s.tasks init current y x xs ys v)) roused.sched
        (roused.zombies init ∙ live) in
    let more : (s.tasks.cptr s.sched.current == 0) ≡ false = rw (c, e) real in
    let first : s.tasks.cptr s.sched.current ≡ x = rw c e in
    let fuel : length (x ∷ xs) + n ≡ suc (length xs + n) = omega arith in
    (
      u,
      rw (more, step, fuel) run,
      record {
        family = a.family;
        left = a.left;
        code = a.code ∙ code;
        spaces = a.spaces ∙ spaces;
        roused = IsRoused-twice roused a.roused;
        told = λ z h dead alert. elim (Bool-cases (z == x)) [
          | inl k ↦
              let here : z ≡ x = ground arith in
              a.roused.runs init (told (rw (first, ← here) dead) alert)
          | inr k ↦ a.told z (ground arith) (roused.zombies z ∙ dead) (roused.alert init alert)
        ];
      },
    )
