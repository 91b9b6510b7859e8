-- ===== src/Tasks/Change.antt =====
-- `add_task` and `del_task`.
use freak_os.Base.{
  ℕ, ◌≡◌, ◌∙◌, inl, inr, refl, true, false, List, [], ◌∷◌, arith, ◌==◌, update, has, Distinct,
  Bool-cases,
}
use freak_os.Tasks.{Tasks, link_child, add_task}
use freak_os.Tasks.Family.{Siblings, IsFamily, Siblings-frame}

-- The older siblings of the first child keep their links.
link_child-rest :
    (s : Tasks) (p task x : ℕ) (xs : List ℕ)
    → s.cptr p ≡ x
    → has x xs ≡ false
    → has task xs ≡ false
    → Siblings s p x (s.optr x) xs
    → Siblings (link_child p task s) p x (s.optr x) xs
link_child-rest s p task x xs e a b k =
    Siblings-frame s (link_child p task s) p x (s.optr x) xs
      (λ z h. elim (Bool-cases (s.cptr p == 0)) [
        | inl none ↦ rw none (refl, ground arith, ground arith)
        | inr older ↦ rw older (refl, ground arith, ground arith)
      ])
      k

pub link_child-IsFamily :
    (s : Tasks) (p task : ℕ) (xs : List ℕ)
    → IsFamily s p xs
    → has task xs ≡ false
    → (task == 0) ≡ false
    → s.parent task ≡ p
    → IsFamily (link_child p task s) p (task ∷ xs)
link_child-IsFamily s p task [] v out real par =
    let none : (s.cptr p == 0) ≡ true = ground (arith, v.chain) in
    record {
      chain = rw none (ground arith, real, par, ground arith, ground arith);
      distinct = ground arith;
    }
link_child-IsFamily s p task (x ∷ xs) v out real par =
    let (e, n, q, w, k) = v.chain in
    let older : (s.cptr p == 0) ≡ false = ground arith in
    let rest = link_child-rest s p task x xs e (ground arith) (ground arith) k in
    let kept : update s.optr task (s.cptr p) x ≡ s.optr x = ground arith in
    record {
      chain =
          rw older (
            ground arith,
            real,
            par,
            ground arith,
            (ground arith, n, q, ground arith, rw kept rest),
          );
      distinct = ground arith;
    }

-- On the children of its parent, `add_task` puts a task that is not one of them in front.
pub add_task-IsFamily :
    (s : Tasks) (task : ℕ) (xs : List ℕ)
    → IsFamily s (s.parent task) xs
    → has task xs ≡ false
    → (task == 0) ≡ false
    → IsFamily (add_task task s) (s.parent task) (task ∷ xs)
unfolding add_task
add_task-IsFamily s task xs v out real =
    let t : Tasks = record s { task_list = task ∷ s.task_list } in
    let v' : IsFamily t (s.parent task) xs = record {
      chain =
          Siblings-frame s t (s.parent task) 0 (s.cptr (s.parent task)) xs
            (λ z h. (refl, refl, refl)) v.chain;
      distinct = v.distinct;
    } in
    let w = link_child-IsFamily t (s.parent task) task xs v' out real refl in
    record {
      chain =
          Siblings-frame (link_child (s.parent task) task t) (add_task task s) (s.parent task) 0 _
            (task ∷ xs) (λ z h. (refl, refl, refl)) w.chain;
      distinct = w.distinct;
    }

-- What unlinking a task changes.
pub record IsUnlinked (s u : Tasks) (task : ℕ) : Type 0 where
  pub parents : (z : ℕ) → u.parent z ≡ s.parent z
  pub older : (s.optr task == 0) ≡ false → u.yptr (s.optr task) ≡ s.yptr task
  pub others : (z : ℕ) → (z == s.optr task) ≡ false → u.yptr z ≡ s.yptr z
  pub younger : (s.yptr task == 0) ≡ false → u.optr (s.yptr task) ≡ s.optr task
  pub others' : (z : ℕ) → (z == s.yptr task) ≡ false → u.optr z ≡ s.optr z

-- The older siblings of the task: the first of them gets its younger link.
pub unlink-behind :
    (s u : Tasks) (p task : ℕ) (behind : List ℕ)
    → IsUnlinked s u task
    → Distinct behind
    → has (s.yptr task) behind ≡ false
    → Siblings s p task (s.optr task) behind
    → Siblings u p (s.yptr task) (s.optr task) behind
unlink-behind s u p task [] v d y k = k
unlink-behind s u p task (b ∷ bs) v d y (e, n, q, w, k) =
    let link : u.yptr b ≡ s.yptr task = ground (arith, v.older) in
    let kept : u.optr b ≡ s.optr b = ground (arith, v.others' b) in
    let rest =
      Siblings-frame s u p b (s.optr b) bs
        (λ z h. (v.parents z, ground (arith, v.others z), ground (arith, v.others' z))) k in
    (e, n, v.parents b ∙ q, link, rw kept rest)
