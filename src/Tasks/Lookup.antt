-- ===== src/Tasks/Lookup.antt =====
-- `find_task` and `get_new_tid`.
use freak_os.Base.{
  ℕ, ◌≡◌, ◌⊎◌, ◌<◌, ◌^◌, inl, inr, refl, true, false, List, [], ◌∷◌, Option, some, none, arith,
  ◌==◌, has, Bool-cases,
}
use freak_os.Tasks.{Tasks, find_in, find_task, get_new_tid}

abbrev Found : ℕ → List ℕ → (ℕ → ℕ) → Option ℕ → Type 0
Found tid tasks tids result =
    ((x : ℕ) × (result ≡ some x) × (has x tasks ≡ true) × (tids x ≡ tid))
    ⊎ ((result ≡ none) × ((x : ℕ) → has x tasks ≡ true → (tids x == tid) ≡ false))

find_in-Found :
    (tid : ℕ) (tasks : List ℕ) (tids : ℕ → ℕ) → Found tid tasks tids (find_in tid tasks tids)
unfolding find_in
find_in-Found tid [] tids = inr (refl, λ x h. ground arith)
find_in-Found tid (t ∷ ts) tids = elim (Bool-cases (tid == tids t)) [
  | inl h ↦ inl (t, rw h refl, ground arith, ground arith)
  | inr h ↦ rw h (elim (find_in-Found tid ts tids) [
    | inl (x, e, m, i) ↦ inl (x, e, ground arith, i)
    | inr (e, none_has) ↦ inr (e, λ x m. ground (arith, none_has x))
  ])
]

-- `find_task` returns a task of `TaskList` with the number, or NULL when no task there has it.
pub find_task-Found :
    (s : Tasks) (tid : ℕ)
    → ((x : ℕ) × (find_task tid s ≡ some x) × (has x s.task_list ≡ true) × (s.tid x ≡ tid))
      ⊎ ((find_task tid s ≡ none) × ((x : ℕ) → has x s.task_list ≡ true → (s.tid x == tid) ≡ false))
unfolding find_task
find_task-Found s tid = find_in-Found tid s.task_list s.tid

-- While the numbers of all tasks are below a count of tasks that is not 0 and fits the machine word,
-- `find_task` finds no task with the number from `get_new_tid`.
pub get_new_tid-fresh :
    (s : Tasks)
    → ((x : ℕ) → has x s.task_list ≡ true → s.tid x < s.task_count)
    → 0 < s.task_count
    → s.task_count < 2 ^ 32
    → find_task (get_new_tid s) s ≡ none
unfolding get_new_tid
get_new_tid-fresh s below some_task bound =
    let number : get_new_tid s ≡ s.task_count = omega arith in
    elim (find_task-Found s (get_new_tid s)) [
      | inl (x, e, m, i) ↦ ground (arith, below x m)
      | inr (e, others) ↦ e
    ]
