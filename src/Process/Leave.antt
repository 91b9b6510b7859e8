-- ===== src/Process/Leave.antt =====
-- What `do_exit` leaves of the families and of the tasks that wait.
use freak_os.Base.{
  ℕ, suc, ◌+◌, ◌≡◌, ◌∙◌, inl, true, false, List, [], some, arith, ◌==◌, has, length,
}
use freak_os.Sched.{is_runnable, is_zombie, task_zombie}
use freak_os.Sched.Queue.{IsSched}
use freak_os.Tasks.Family.{IsFamily}
use freak_os.Tasks.Exit.{reverse_onto, Apart}
use freak_os.Process.{Kernel, wt_child, become_zombie, leave}
use freak_os.Process.Adopt.{adopt_children-Adopted}
use freak_os.Process.Wake.{wake_waiting-Roused, IsSched-update}

module _ (n : ℕ) (s : Kernel) (init err_code : ℕ) (xs ys : List ℕ) (v : IsSched s.sched)
    (live : is_zombie (s.sched.state init) ≡ false)
    (parent_live : is_zombie (s.sched.state (s.tasks.parent s.sched.current)) ≡ false)
    (differ : (init == s.sched.current) ≡ false)
    (parent_differ : (s.tasks.parent s.sched.current == s.sched.current) ≡ false)
    (f : IsFamily s.tasks s.sched.current xs) (g : IsFamily s.tasks init ys)
    (apart : Apart xs ys) where
  abbrev pub current : ℕ
  current = s.sched.current

  abbrev pub parent : ℕ
  parent = s.tasks.parent current

  -- What the kernel looks like when the current task has ended.
  pub record IsEnded (t : Kernel) : Type 0 where
    pub sched : IsSched t.sched
    pub zombie : is_zombie (t.sched.state current) ≡ true
    pub code : t.exit_code current ≡ err_code
    pub given : IsFamily t.tasks init (reverse_onto xs ys)
    pub childless : IsFamily t.tasks current []
    pub parent_told :
        (s.sched.wait_state parent == wt_child) ≡ true → is_runnable (t.sched.state parent) ≡ true
    pub init_told :
        (x : ℕ)
        → has x xs ≡ true
        → is_zombie (s.sched.state x) ≡ true
        → (s.sched.wait_state init == wt_child) ≡ true
        → is_runnable (t.sched.state init) ≡ true

  pub leave-IsEnded :
      (t : Kernel) × (leave (suc (length xs + n)) init err_code s ≡ some t)
      × IsEnded t
      × (t.sched.current ≡ current)
      × (t.sched.idle_task ≡ s.sched.idle_task)
      × (t.spaces ≡ s.spaces)
  unfolding leave
  leave-IsEnded =
      let z = become_zombie err_code s in
      let (r, e, roused, told) =
        wake_waiting-Roused parent z.sched (IsSched-update s.sched task_zombie s.sched.wait_state v)
          (ground arith) in
      let u : Kernel = record z { sched = r } in
      let (t, run, a) =
        adopt_children-Adopted n u init current 0 xs ys roused.current
          (record {
            left = f.chain;
            distinct = f.distinct;
            given = g;
            apart = apart;
            differ = differ;
          })
          roused.sched (roused.zombies init ∙ ground arith) in
      (
        t,
        rw (leave, e) run,
        record {
          sched = a.roused.sched;
          zombie = a.roused.zombies current ∙ roused.zombies current ∙ ground arith;
          code = rw a.code (ground arith);
          given = a.family;
          childless = record { chain = a.left; distinct = _ };
          parent_told = λ w. a.roused.runs parent (told (inl w));
          init_told = λ x h dead w.
              a.told x h (roused.zombies x ∙ ground arith) (roused.alert init (inl w));
        },
        a.roused.current ∙ roused.current,
        a.roused.idle ∙ roused.idle,
        a.spaces,
      )
