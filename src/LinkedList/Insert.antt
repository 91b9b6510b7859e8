-- ===== src/LinkedList/Insert.antt =====
-- `listAdd`, `listAddTail`, `listAddBefore` and `listAddAfter` insert one node in the sequence.
use freak_os.Base.{
  ℕ, false, List, [], ◌∷◌, ◌++◌, ◌≡◌, ◌⊎◌, inl, inr, refl, has, has-append, arith, ap, sym,
  append_assoc,
}
use freak_os.LinkedList.{
  Heap, init_list, list_add_between, list_add_after, list_add_before, list_add, list_add_tail,
}
use freak_os.LinkedList.Ring.{Chain, Chain-split, Chain-frame, IsRing, IsRing-rotate}

-- A node made by `initList` heads the empty list.
pub init_list-IsRing : (l : ℕ) (h : Heap) → IsRing (init_list l h) l []
unfolding init_list
init_list-IsRing l h = ground arith

add_after_head :
    {h : Heap} (p e : ℕ) (zs : List ℕ)
    → IsRing h p zs
    → has e (p ∷ zs) ≡ false
    → IsRing (list_add_after p e h) p (e ∷ zs)
unfolding list_add_after
add_after_head p e [] r out = ground arith
add_after_head {h} p e (z ∷ zs) r out = record {
  chain = (ground arith, ground arith, (ground arith, ground arith, rest));
  distinct = ground arith;
}
  where
    c : Chain h p (z ∷ zs) p
    c = r.chain

    rest : Chain (list_add_after p e h) z zs p
    rest =
        Chain-frame z zs p (λ a i. ground (arith, r.distinct))
          (λ a i. ground (arith, has-append a zs (p ∷ []), r.distinct)) c.2

last_cases : (xs : List ℕ) → (xs ≡ []) ⊎ ((zs : List ℕ) × (y : ℕ) × (xs ≡ zs ++ y ∷ []))
last_cases [] = inl refl
last_cases (x ∷ xs) = inr (go (last_cases xs))
  where
    go :
        (xs ≡ []) ⊎ ((zs : List ℕ) × (y : ℕ) × (xs ≡ zs ++ y ∷ []))
        → (zs : List ℕ) × (y : ℕ) × (x ∷ xs ≡ zs ++ y ∷ [])
    go (inl e) = ([], x, ap (λ l. x ∷ l) e)
    go (inr (zs, y, e)) = (x ∷ zs, y, ap (λ l. x ∷ l) e)

fresh-rotate :
    (e l : ℕ) (xs : List ℕ) (p : ℕ) (ys : List ℕ)
    → has e (l ∷ xs ++ p ∷ ys) ≡ false
    → has e (p ∷ ys ++ l ∷ xs) ≡ false
fresh-rotate e l xs p ys out = ground (arith, has-append e xs (p ∷ ys), has-append e ys (l ∷ xs))

-- Before a node is behind its predecessor.
before-eq-after :
    (h : Heap) (p y e : ℕ)
    → h.prev p ≡ y
    → h.next y ≡ p
    → list_add_before p e h ≡ list_add_after y e h
unfolding list_add_before list_add_after
before-eq-after h p y e a b = λ i. list_add_between e (a i) (sym b i) h

module _ {h : Heap} where
  -- A node that is not in the list is put right behind the node `p` by `listAddAfter`, and the list is the
  -- same otherwise.
  pub list_add_after-insert :
      (l : ℕ) (xs : List ℕ) (p : ℕ) (ys : List ℕ) (e : ℕ)
      → IsRing h l (xs ++ p ∷ ys)
      → has e (l ∷ xs ++ p ∷ ys) ≡ false
      → IsRing (list_add_after p e h) l (xs ++ p ∷ e ∷ ys)
  list_add_after-insert l xs p ys e r out =
      IsRing-rotate p (e ∷ ys) l xs (
        add_after_head p e (ys ++ l ∷ xs) (IsRing-rotate l xs p ys r)
          (fresh-rotate e l xs p ys out))

  -- `listAdd` puts it in front of the sequence.
  pub list_add-cons :
      (l e : ℕ) (xs : List ℕ)
      → IsRing h l xs
      → has e (l ∷ xs) ≡ false
      → IsRing (list_add l e h) l (e ∷ xs)
  unfolding list_add
  list_add-cons l e xs r out = add_after_head l e xs r out

  before_last :
      (p : ℕ) (zs : List ℕ) (y e : ℕ)
      → IsRing h p (zs ++ y ∷ [])
      → has e (p ∷ zs ++ y ∷ []) ≡ false
      → IsRing (list_add_before p e h) p (zs ++ y ∷ e ∷ [])
  before_last p zs y e r out =
      let (a, b) = Chain-split h p zs y [] p r.chain in
      rw (before-eq-after h p y e b.1 b.0) (list_add_after-insert p zs y [] e r out)

  before_empty :
      (p e : ℕ) → IsRing h p [] → has e (p ∷ []) ≡ false → IsRing (list_add_before p e h) p (e ∷ [])
  before_empty p e r out =
      rw (before-eq-after h p p e r.chain.1 r.chain.0) (add_after_head p e [] r out)

  -- A node that is not in the list is put at its end by `listAddTail`.
  pub list_add_tail-append :
      (l e : ℕ) (xs : List ℕ)
      → IsRing h l xs
      → has e (l ∷ xs) ≡ false
      → IsRing (list_add_tail l e h) l (xs ++ e ∷ [])
  unfolding list_add_tail
  list_add_tail-append l e xs r out = elim (last_cases xs) [
    | inl none ↦ rw none (before_empty l e (rw none at r) (rw none at out))
    | inr (zs, y, eq) ↦
        rw (eq, append_assoc zs (y ∷ []) (e ∷ []))
          (before_last l zs y e (rw eq at r) (rw eq at out))
  ]
