-- ===== src/Process.antt =====
-- The end of a task: `do_exit` and `do_wait` of `kern/krnl/task/task.c`, over the scheduler and the family
-- of tasks.
--
-- The maps, the areas and the tasks are values here, so that freeing their structures by `kfree` is left
-- out. A `panic`, and a loop that runs out of fuel, are `none`.
pub mod Wake
pub mod Release
pub mod Adopt
pub mod Leave
pub mod Exit
pub mod Wait
mod Tests
use freak_os.Base.{
  ℕ, zero, suc, ◌+◌, Bool, true, false, ◌||◌, not, Option, none, some, ◌==◌, if◌then◌else◌, update,
}
use freak_os.Sched.{Sched, task_zombie, task_sleeping, is_zombie, wakeup_task, schedule}
use mathlib.Core.Option as Opt
use freak_os.Base.{◌^◌, List, [], leb}
use freak_os.Base.Word.{sub32}
use freak_os.Pmm.{free_pages}
use freak_os.Paging.{Memory, is_frame}
use freak_os.AddressSpace.{exit_mmap}
use freak_os.Vmm.{Vma, MemMap, check_user_mem}
use freak_os.Tasks.{Tasks, give_child, find_task, del_task}

-- The maps of the tasks: of each task, 0 for NULL, and how many tasks share it, its directory and areas.
pub record Spaces : Type 0 where
  pub mm : ℕ → ℕ
  pub mm_count : ℕ → ℕ
  pub pgdir : ℕ → ℕ
  pub vma_list : ℕ → List Vma
  pub memory : Memory

pub record Kernel : Type 0 where
  pub spaces : Spaces
  pub sched : Sched
  pub tasks : Tasks
  pub exit_code : ℕ → ℕ

-- The directory is the number of its frame.
pub put_pgdir : ℕ → Memory → Option Memory
put_pgdir pgdir m =
    if is_frame m pgdir
    then Opt.map (λ a. record m { frames = a }) (free_pages pgdir 1 m.frames)
    else none

-- The count is an `int`, tested for `<= 0`.
pub mm_destroy : ℕ → Spaces → Spaces
mm_destroy mm s =
    if (s.mm_count mm == 0) || leb (2 ^ 31) (s.mm_count mm)
    then record s { vma_list = update s.vma_list mm [] }
    else record s { mm_count = update s.mm_count mm (sub32 (s.mm_count mm) 1) }

-- What `do_exit` does with a map that no task shares any more.
pub destroy_space : ℕ → Spaces → Option Spaces
destroy_space mm s = elim (exit_mmap (s.pgdir mm) (s.mm_count mm) (s.vma_list mm) s.memory) [
  | none ↦ none
  | some m ↦ elim (put_pgdir (s.pgdir mm) m) [
    | none ↦ none
    | some u ↦ some (mm_destroy mm (record s { memory = u }))
  ]
]

abbrev pub without_mm : ℕ → Option Spaces → Option Spaces
without_mm task none = none
without_mm task (some s) = some (record s { mm = update s.mm task 0 })

-- The release of the memory of a task by `do_exit`.
pub release_mm : ℕ → Spaces → Option Spaces
release_mm task s =
    let mm = s.mm task in
    let t : Spaces = record s { mm_count = update s.mm_count mm (sub32 (s.mm_count mm) 1) } in
    if mm == 0
    then some s
    else without_mm task (if t.mm_count mm == 0 then destroy_space mm t else some t)

-- `WT_CHILD`, with `WT_INTERRUPTED` in the highest bit.
abbrev pub wt_child : ℕ
wt_child = 0x8000_0001

-- Wakes a task that waits for a child.
unfoldable pub wake_waiting : ℕ → Sched → Option Sched
wake_waiting task s = if s.wait_state task == wt_child then wakeup_task task s else some s

abbrev pub with_sched : Kernel → Option Sched → Option Kernel
with_sched s none = none
with_sched s (some t) = some (record s { sched = t })

-- One round of the loop of `do_exit`.
unfoldable pub adopt_child : ℕ → Kernel → Option Kernel
adopt_child init s =
    let child = s.tasks.cptr s.sched.current in
    let t : Kernel = record s { tasks = give_child init s.sched.current s.tasks } in
    if is_zombie (s.sched.state child) then with_sched t (wake_waiting init s.sched) else some t

pub adopt_children : ℕ → ℕ → Kernel → Option Kernel
adopt_children zero init s = none
adopt_children (suc fuel) init s =
    if s.tasks.cptr s.sched.current == 0
    then some s
    else elim (adopt_child init s) [ none ↦ none | some t ↦ adopt_children fuel init t ]

-- The current task becomes a zombie with its code.
abbrev pub become_zombie : ℕ → Kernel → Kernel
become_zombie err_code s = record s {
  sched = record s.sched { state = update s.sched.state s.sched.current task_zombie };
  exit_code = update s.exit_code s.sched.current err_code;
}

-- From the end of the release of the memory to the call of `schedule`.
pub leave : ℕ → ℕ → ℕ → Kernel → Option Kernel
leave fuel init err_code s =
    let t = become_zombie err_code s in
    elim (with_sched t (wake_waiting (t.tasks.parent t.sched.current) t.sched)) [
      | none ↦ none
      | some u ↦ adopt_children fuel init u
    ]

pub do_exit : ℕ → ℕ → ℕ → Kernel → Option Kernel
do_exit fuel init err_code s =
    if s.sched.current == s.sched.idle_task
    then none
    else elim (release_mm s.sched.current s.spaces) [
      | none ↦ none
      | some r ↦ elim (leave fuel init err_code (record s { spaces = r })) [
        | none ↦ none
        | some t ↦ some (record t { sched = schedule t.sched })
      ]
    ]

-- What a round of `do_wait` comes to: a child is reaped with its code, the caller is put to sleep and a
-- later round follows, or `do_exit` where the caller was killed meanwhile, there is no child to wait for
-- (`-E_BAD_PROC`), or the address for the code is not the caller's to write (`-E_INVAL`).
pub data Waited : Type 0 where
  reaped : ℕ → ℕ → Kernel → Waited
  slept : Kernel → Waited
  bad_proc : Waited
  invalid : Waited

-- The walk over the children: whether there is one, and the first zombie among them.
pub zombie_from : ℕ → ℕ → Bool → Kernel → Option (Bool × Option ℕ)
zombie_from zero task haskid s = none
zombie_from (suc fuel) task haskid s =
    let rest = zombie_from fuel (s.tasks.optr task) true s in
    if task == 0
    then some (haskid, none)
    else if is_zombie (s.sched.state task)
    then some (true, some task)
    else rest

-- The task with the number that was asked for, if it is a child.
abbrev pub zombie_child : Option ℕ → Kernel → Bool × Option ℕ
zombie_child none s = (false, none)
zombie_child (some task) s =
    if s.tasks.parent task == s.sched.current
    then (true, if is_zombie (s.sched.state task) then some task else none)
    else (false, none)

pub find_zombie : ℕ → ℕ → Kernel → Option (Bool × Option ℕ)
find_zombie fuel pid s =
    if pid == 0
    then zombie_from fuel (s.tasks.cptr s.sched.current) false s
    else some (zombie_child (find_task pid s.tasks) s)

-- From `found` on. That the stack and the `Task_t` are freed is left out.
pub reap : ℕ → ℕ → Kernel → Option Waited
reap init task s =
    if (task == s.sched.idle_task) || (task == init)
    then none
    else some (reaped task (s.exit_code task) (record s { tasks = del_task task s.tasks }))

-- The caller sleeps until a child ends.
abbrev pub sleep_for_child : Sched → Sched
sleep_for_child s = record s {
  state = update s.state s.current task_sleeping;
  wait_state = update s.wait_state s.current wt_child;
}

-- From `repeat` to the next `schedule`, or to the end.
pub wait_round : ℕ → ℕ → ℕ → Kernel → Option Waited
wait_round fuel init pid s = elim (find_zombie fuel pid s) [
  | none ↦ none
  | some (haskid, none) ↦
      some (
        if haskid
        then slept (record s { sched = schedule (sleep_for_child s.sched) })
        else bad_proc)
  | some (haskid, some task) ↦ reap init task s
]

-- That `checkUserMem` may change the cache of the map is left out.
abbrev pub can_store : Option MemMap → Option ℕ → Option Bool
can_store mm none = some true
can_store mm (some addr) = Opt.map (λ (ok, mm'). ok) (check_user_mem mm addr 4 true)

-- The first round; `code_store` is the address for the code, or `none` for NULL.
pub do_wait : ℕ → ℕ → Option MemMap → ℕ → Option ℕ → Kernel → Option Waited
do_wait fuel init mm pid code_store s =
    let round = wait_round fuel init pid s in
    elim (can_store mm code_store) [ none ↦ none | some ok ↦ if ok then round else some invalid ]
