-- ===== src/LinkedList.antt =====
-- The circular doubly linked intrusive list of `kern/include/list.h`. A node is an address, and the
-- heap holds the two pointers of each node.
pub mod Ring
pub mod Insert
pub mod Remove
pub mod Walk
mod Tests
use freak_os.Base.{
  ℕ, zero, suc, Bool, true, false, List, [], ◌∷◌, ◌==◌, if◌then◌else◌, update, Option, none, some,
}
use mathlib.Core.Option as Opt

pub record Heap : Type 0 where
  pub prev : ℕ → ℕ
  pub next : ℕ → ℕ

abbrev pub set_next : ℕ → ℕ → Heap → Heap
set_next p v h = record h { next = update h.next p v }

abbrev pub set_prev : ℕ → ℕ → Heap → Heap
set_prev p v h = record h { prev = update h.prev p v }

pub init_list : ℕ → Heap → Heap
init_list elem h = set_prev elem elem (set_next elem elem h)

-- `prev->next = next->prev = elem` writes `next->prev` first.
pub list_add_between : ℕ → ℕ → ℕ → Heap → Heap
list_add_between elem prev next h =
    set_prev elem prev (set_next elem next (set_next prev elem (set_prev next elem h)))

pub list_del_between : ℕ → ℕ → Heap → Heap
list_del_between prev next h = set_prev next prev (set_next prev next h)

pub list_add_before : ℕ → ℕ → Heap → Heap
unfolding list_add_between
list_add_before listelem elem h = list_add_between elem (h.prev listelem) listelem h

pub list_add_after : ℕ → ℕ → Heap → Heap
unfolding list_add_between
list_add_after listelem elem h = list_add_between elem listelem (h.next listelem) h

-- At the front, right behind the head.
pub list_add : ℕ → ℕ → Heap → Heap
unfolding list_add_after
list_add list new h = list_add_after list new h

-- At the back, right before the head.
pub list_add_tail : ℕ → ℕ → Heap → Heap
unfolding list_add_before
list_add_tail listelem new h = list_add_before listelem new h

pub list_del : ℕ → Heap → Heap
unfolding list_del_between
list_del listelem h = list_del_between (h.prev listelem) (h.next listelem) h

pub list_del_init : ℕ → Heap → Heap
unfolding list_del init_list
list_del_init listelem h = init_list listelem (list_del listelem h)

pub list_is_empty : ℕ → Heap → Bool
list_is_empty list h = h.next list == list

pub list_get_next : ℕ → Heap → ℕ
list_get_next listelem h = h.next listelem

pub list_get_prev : ℕ → Heap → ℕ
list_get_prev listelem h = h.prev listelem

-- The nodes that `for (i = head->next; i != head; i = i->next)` visits, in order; `none` when the
-- fuel runs out.
for_each_from : ℕ → ℕ → ℕ → Heap → Option (List ℕ)
for_each_from zero i head h = none
for_each_from (suc fuel) i head h =
    let rest = for_each_from fuel (h.next i) head h in
    if i == head then some [] else Opt.map (λ xs. i ∷ xs) rest

pub list_for_each : ℕ → ℕ → Heap → Option (List ℕ)
unfolding for_each_from
list_for_each fuel head h = for_each_from fuel (h.next head) head h
