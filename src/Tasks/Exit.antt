-- ===== src/Tasks/Exit.antt =====
-- A round of the loop of `do_exit` that gives the children of the ending task to `init`.
use freak_os.Base.{
  ℕ, ◌≡◌, sym, inl, inr, Bool-cases, refl, true, false, List, [], ◌∷◌, arith, ◌==◌, update, has,
  Distinct,
}
use freak_os.Tasks.{Tasks, set_parent, set_cptr, give_child}
use freak_os.Tasks.Family.{Siblings, IsFamily, Siblings-frame, next-has}
use freak_os.Tasks.Change.{link_child-IsFamily}

-- The first list, last child first, in front of the second.
abbrev pub reverse_onto : List ℕ → List ℕ → List ℕ
reverse_onto [] ys = ys
reverse_onto (x ∷ xs) ys = reverse_onto xs (x ∷ ys)

-- No task of the first list is in the second.
abbrev pub Apart : List ℕ → List ℕ → Type 0
Apart xs ys = (z : ℕ) → has z xs ≡ true → has z ys ≡ false

-- Before a round: the rest of the children of `current`, whose first one may still have a younger link.
pub record IsExiting (s : Tasks) (init current y : ℕ) (xs ys : List ℕ) : Type 0 where
  pub left : Siblings s current y (s.cptr current) xs
  pub distinct : Distinct xs
  pub given : IsFamily s init ys
  pub apart : Apart xs ys
  pub differ : (init == current) ≡ false

give_child-given :
    (s : Tasks) (init current y x : ℕ) (xs ys : List ℕ)
    → IsExiting s init current y (x ∷ xs) ys
    → IsFamily (give_child init current s) init (x ∷ ys)
unfolding give_child
give_child-given s init current y x xs ys v =
    let (e, n, q, w, k) = v.left in
    let out : has x ys ≡ false = v.apart x (ground arith) in
    let d : (init == current) ≡ false = v.differ in
    let t = set_parent (s.cptr current) init (set_cptr current (s.optr (s.cptr current)) s) in
    let kept : t.cptr init ≡ s.cptr init = ground arith in
    let chain =
      Siblings-frame s t init 0 (s.cptr init) ys (λ z h. (ground arith, refl, refl))
        v.given.chain in
    let before : IsFamily t init ys = record {
      chain = rw kept chain;
      distinct = v.given.distinct;
    } in
    rw (sym e)
      (link_child-IsFamily t init (s.cptr current) ys before (rw e out) (rw e n) (ground arith))

-- The children that are left keep their links.
give_child-rest :
    (s : Tasks) (init current y x : ℕ) (xs ys : List ℕ)
    → IsExiting s init current y (x ∷ xs) ys
    → Siblings (give_child init current s) current x ((give_child init current s).cptr current) xs
unfolding give_child
give_child-rest s init current y x xs ys v =
    let (e, n, q, w, k) = v.left in
    let (a, d) = v.distinct in
    let apart : (init == current) ≡ false = v.differ in
    let kept : update s.cptr current (s.optr (s.cptr current)) init ≡ s.cptr init = ground arith in
    let next = next-has s init 0 (s.cptr init) ys v.given.chain in
    let head : (give_child init current s).cptr current ≡ s.optr x = ground arith in
    rw head (
      Siblings-frame s (give_child init current s) current x (s.optr x) xs
        (λ z h.
          let out : has z ys ≡ false = v.apart z (ground arith) in
          let other : (z == s.cptr current) ≡ false = ground arith in
          elim (Bool-cases (s.cptr init == 0)) [
            | inl none ↦ rw (kept, none) (ground arith, ground arith, ground arith)
            | inr older ↦
                let apart' : (z == s.cptr init) ≡ false = elim next [
                  | inl c ↦ ground arith
                  | inr c ↦ ground arith
                ] in
                rw (kept, older) (ground arith, ground arith, ground arith)
          ])
        k)

pub give_child-left :
    (s : Tasks) (init current y x : ℕ) (xs ys : List ℕ)
    → IsExiting s init current y (x ∷ xs) ys
    → IsExiting (give_child init current s) init current x xs (x ∷ ys)
give_child-left s init current y x xs ys v =
    let (e, n, q, w, k) = v.left in
    let (a, d) = v.distinct in
    record {
      left = give_child-rest s init current y x xs ys v;
      distinct = d;
      given = give_child-given s init current y x xs ys v;
      apart = λ z h. ground (arith, v.apart z);
      differ = v.differ;
    }
