-- ===== src/Tasks.antt =====
-- The family of tasks: `kern/krnl/task/task.c`.
--
-- A task is its `Task_t`, a number, and 0 is NULL. Its links are functions of it: the parent, the youngest
-- child, and the next younger and older sibling. The list `TaskList` is the sequence of its tasks, which
-- `LinkedList` relates to the pointers.
pub mod Family
pub mod Change
pub mod Unlink
pub mod Exit
pub mod Lookup
mod Tests
use freak_os.Base.{
  ℕ, zero, suc, ◌+◌, ◌-◌, Bool, true, false, not, List, [], ◌∷◌, Option, none, some, ◌==◌,
  if◌then◌else◌, update, erase,
}
use freak_os.Base.Word.{add32, sub32}

pub record Tasks : Type 0 where
  pub parent : ℕ → ℕ
  pub cptr : ℕ → ℕ
  pub yptr : ℕ → ℕ
  pub optr : ℕ → ℕ
  pub tid : ℕ → ℕ
  pub task_list : List ℕ
  pub task_count : ℕ

abbrev pub set_parent : ℕ → ℕ → Tasks → Tasks
set_parent task v s = record s { parent = update s.parent task v }

abbrev pub set_cptr : ℕ → ℕ → Tasks → Tasks
set_cptr task v s = record s { cptr = update s.cptr task v }

abbrev pub set_yptr : ℕ → ℕ → Tasks → Tasks
set_yptr task v s = record s { yptr = update s.yptr task v }

abbrev pub set_optr : ℕ → ℕ → Tasks → Tasks
set_optr task v s = record s { optr = update s.optr task v }

-- `task` becomes the youngest child of `p`: what `add_task` and the loop of `do_exit` have in common. The
-- order of the writes is that of `add_task`.
abbrev pub link_child : ℕ → ℕ → Tasks → Tasks
link_child p task s =
    let older = s.cptr p in
    let t = set_optr task older (set_yptr task 0 s) in
    set_cptr p task (if older == 0 then t else set_yptr older task t)

pub add_task : ℕ → Tasks → Tasks
add_task task s =
    let t : Tasks = record s { task_list = task ∷ s.task_list } in
    let u = link_child (t.parent task) task t in record u { task_count = add32 u.task_count 1 }

pub del_task : ℕ → Tasks → Tasks
del_task task s =
    let t : Tasks = record s { task_list = erase task s.task_list } in
    let u = if t.optr task == 0 then t else set_yptr (t.optr task) (t.yptr task) t in
    let v =
      if u.yptr task == 0
      then set_cptr (u.parent task) (u.optr task) u
      else set_optr (u.yptr task) (u.optr task) u in
    record v { task_count = sub32 v.task_count 1 }

-- The walk of `find_task`.
find_in : ℕ → List ℕ → (ℕ → ℕ) → Option ℕ
find_in tid [] tids = none
find_in tid (x ∷ xs) tids = if tid == tids x then some x else find_in tid xs tids

pub find_task : ℕ → Tasks → Option ℕ
unfolding find_in
find_task tid s = find_in tid s.task_list s.tid

pub get_new_tid : Tasks → ℕ
get_new_tid s = add32 (sub32 s.task_count 1) 1

-- One round of the loop of `do_exit`: the youngest child of `current` is given to `init`. `Process` wakes
-- `init` for a child that has ended.
pub give_child : ℕ → ℕ → Tasks → Tasks
give_child init current s =
    let child = s.cptr current in
    let t = set_cptr current (s.optr child) s in link_child init child (set_parent child init t)
