-- ===== src/Tasks/Unlink.antt =====
-- `del_task`: unlinking a task from its siblings.
use freak_os.Base.{
  ℕ, ◌≡◌, ◌∙◌, inl, inr, refl, sym, true, false, List, [], ◌∷◌, ◌++◌, arith, ◌==◌, update, has,
  has-append, Distinct, Bool-cases,
}
use freak_os.Tasks.{Tasks, del_task}
use freak_os.Tasks.Family.{Siblings, IsFamily, next-has}
use freak_os.Tasks.Change.{IsUnlinked, unlink-behind}

-- The task in front of `task` is one of the front part.
before-has :
    (s : Tasks) (p y c task a : ℕ) (front behind : List ℕ)
    → Siblings s p y c (a ∷ front ++ task ∷ behind)
    → has (s.yptr task) (a ∷ front) ≡ true
before-has s p y c task a [] behind (e, n, q, w, (e', n', q', w', k)) = ground arith
before-has s p y c task a (b ∷ front) behind (e, n, q, w, k) =
    let tail = before-has s p a (s.optr a) task b front behind k in ground arith

-- The links behind `task` start with its older sibling.
tail-Siblings :
    (s : Tasks) (p y c task : ℕ) (front behind : List ℕ)
    → Siblings s p y c (front ++ task ∷ behind)
    → Siblings s p task (s.optr task) behind
tail-Siblings s p y c task [] behind (e, n, q, w, k) = k
tail-Siblings s p y c task (a ∷ front) behind (e, n, q, w, k) =
    tail-Siblings s p a (s.optr a) task front behind k

drop-Distinct :
    (front : List ℕ) (task : ℕ) (behind : List ℕ)
    → Distinct (front ++ task ∷ behind)
    → (has task behind ≡ false) × Distinct behind
drop-Distinct [] task behind d = d
drop-Distinct (a ∷ front) task behind (n, d) = drop-Distinct front task behind d

remove-Distinct :
    (front : List ℕ) (task : ℕ) (behind : List ℕ)
    → Distinct (front ++ task ∷ behind)
    → Distinct (front ++ behind)
remove-Distinct [] task behind (n, d) = d
remove-Distinct (a ∷ front) task behind (n, d) = (
  ground (arith, has-append a front (task ∷ behind), has-append a front behind),
  remove-Distinct front task behind d,
)

-- With tasks in front, `task` falls out of the chain.
unlink-front :
    (s u : Tasks) (p y c task a : ℕ) (front behind : List ℕ)
    → IsUnlinked s u task
    → Distinct (a ∷ front ++ task ∷ behind)
    → Siblings s p y c (a ∷ front ++ task ∷ behind)
    → Siblings u p y c (a ∷ front ++ behind)
unlink-front s u p y c task a [] behind v (n1, (n2, d)) (e, n, q, w, (e', n', q', w', k)) =
    let younger : s.yptr task ≡ a = w' in
    let next = next-has s p task (s.optr task) behind k in
    let link : u.optr a ≡ s.optr task = ground (arith, v.younger) in
    let apart : (a == s.optr task) ≡ false = elim next [
      | inl h ↦ ground arith
      | inr h ↦ ground arith
    ] in
    let rest = unlink-behind s u p task behind v d (ground arith) k in
    (e, n, v.parents a ∙ q, v.others a apart ∙ w, rw (link, sym younger) rest)
unlink-front s u p y c task a (b ∷ front) behind v (n1, d) (e, n, q, w, k) =
    let split = has-append a (b ∷ front) (task ∷ behind) in
    let before = before-has s p a (s.optr a) task b front behind k in
    let next =
      next-has s p task (s.optr task) behind
        (tail-Siblings s p a (s.optr a) task (b ∷ front) behind k) in
    let kept : u.optr a ≡ s.optr a = ground (arith, v.others' a) in
    let apart : (a == s.optr task) ≡ false = elim next [
      | inl h ↦ ground arith
      | inr h ↦ ground arith
    ] in
    let rest = unlink-front s u p a (s.optr a) task b front behind v d k in
    (e, n, v.parents a ∙ q, v.others a apart ∙ w, rw kept rest)

-- NULL is not in a chain.
Siblings-real : (s : Tasks) (p y c : ℕ) (xs : List ℕ) → Siblings s p y c xs → has 0 xs ≡ false
Siblings-real s p y c [] k = refl
Siblings-real s p y c (x ∷ xs) (e, n, q, w, k) = ground (arith, Siblings-real s p x (s.optr x) xs k)

-- A younger link that is set to the younger link of `task` leaves that of `task` alone.
update_self : (f : ℕ → ℕ) (o task : ℕ) → update f o (f task) task ≡ f task
update_self f o task = elim (Bool-cases (task == o)) [ inl h ↦ ground arith | inr h ↦ ground arith ]

-- What `del_task` writes.
record IsCut (s u : Tasks) (task : ℕ) : Type 0 where
  unlinked : IsUnlinked s u task
  first : (s.yptr task == 0) ≡ true → u.cptr (s.parent task) ≡ s.optr task
  later : (s.yptr task == 0) ≡ false → u.cptr (s.parent task) ≡ s.cptr (s.parent task)

del_task-IsCut : (s : Tasks) (task : ℕ) → IsCut s (del_task task s) task
unfolding del_task
del_task-IsCut s task = elim (Bool-cases (s.optr task == 0)) [
  | inl o ↦ elim (Bool-cases (s.yptr task == 0)) [
    | inl y ↦ rw (o, y) (ground arith)
    | inr y ↦ rw (o, y) (ground arith)
  ]
  | inr o ↦ elim (Bool-cases (s.yptr task == 0)) [
    | inl y ↦ rw (o, update_self s.yptr (s.optr task) task, y) (ground arith)
    | inr y ↦ rw (o, update_self s.yptr (s.optr task) task, y) (ground arith)
  ]
]

unlink-front-head :
    (s u : Tasks) (p task : ℕ) (front behind : List ℕ)
    → IsUnlinked s u task
    → ((s.yptr task == 0) ≡ true → u.cptr p ≡ s.optr task)
    → ((s.yptr task == 0) ≡ false → u.cptr p ≡ s.cptr p)
    → IsFamily s p (front ++ task ∷ behind)
    → IsFamily u p (front ++ behind)
unlink-front-head s u p task [] behind v first later f =
    let (e, n, q, w, k) = f.chain in
    let (h, d) = f.distinct in
    let out : has (s.yptr task) behind ≡ false =
      rw w (Siblings-real s p task (s.optr task) behind k) in
    let none : (s.yptr task == 0) ≡ true = ground arith in
    let rest = unlink-behind s u p task behind v d out k in
    record { chain = rw (first none, sym w) rest; distinct = d }
unlink-front-head s u p task (a ∷ front) behind v first later f =
    let before = before-has s p 0 (s.cptr p) task a front behind f.chain in
    let real = Siblings-real s p 0 (s.cptr p) (a ∷ front ++ task ∷ behind) f.chain in
    let split = has-append 0 (a ∷ front) (task ∷ behind) in
    let kept : u.cptr p ≡ s.cptr p = later (ground arith) in
    record {
      chain = rw kept (unlink-front s u p 0 (s.cptr p) task a front behind v f.distinct f.chain);
      distinct = remove-Distinct (a ∷ front) task behind f.distinct;
    }

-- On the children of its parent, `del_task` takes out the task, wherever it stands among them.
pub del_task-IsFamily :
    (s : Tasks) (task : ℕ) (front behind : List ℕ)
    → IsFamily s (s.parent task) (front ++ task ∷ behind)
    → IsFamily (del_task task s) (s.parent task) (front ++ behind)
del_task-IsFamily s task front behind f =
    let cut = del_task-IsCut s task in
    unlink-front-head s (del_task task s) (s.parent task) task front behind cut.unlinked cut.first
      cut.later f
