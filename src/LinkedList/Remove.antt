-- ===== src/LinkedList/Remove.antt =====
-- `listDel` and `listDelInit` take one node out of the sequence.
use freak_os.Base.{ℕ, false, List, [], ◌∷◌, ◌++◌, ◌≡◌, has, has-append, Distinct, arith, append-nil}
use freak_os.LinkedList.{Heap, init_list, list_del, list_del_init}
use freak_os.LinkedList.Ring.{Chain, Chain-frame, IsRing, IsRing-rotate, has-prev, Distinct-split}

-- A chain that ends in `x` ends, once `x` is unlinked, in the node `z` that followed it.
unlink_end :
    (h : Heap) (s : ℕ) (ws : List ℕ) (x z : ℕ)
    → Chain h s ws x
    → h.next x ≡ z
    → Distinct (s ∷ ws)
    → has z ws ≡ false
    → Chain (list_del x h) s ws z
unfolding list_del
unlink_end h s [] x z c e d out = ground arith
unlink_end h s (w ∷ ws) x z c e d out = (
  ground (arith, has-prev h w ws x c.2),
  ground arith,
  unlink_end h w ws x z c.2 e d.1 (ground arith),
)

unlink_head : {h : Heap} (x z : ℕ) (zs : List ℕ) → IsRing h x (z ∷ zs) → IsRing (list_del x h) z zs
unlink_head {h} x z zs r = record {
  chain = unlink_end h z zs x z r.chain.2 r.chain.0 r.distinct.1 r.distinct.1.0;
  distinct = r.distinct.1;
}

module _ {h : Heap} where
  -- `listDel` takes the node out and keeps the order of the others.
  pub list_del-remove :
      (l : ℕ) (xs : List ℕ) (x : ℕ) (ys : List ℕ)
      → IsRing h l (xs ++ x ∷ ys)
      → IsRing (list_del x h) l (xs ++ ys)
  list_del-remove l xs x [] r = rw append-nil (unlink_head x l xs (IsRing-rotate l xs x [] r))
  list_del-remove l xs x (y ∷ ys) r =
      IsRing-rotate y ys l xs (unlink_head x y (ys ++ l ∷ xs) (IsRing-rotate l xs x (y ∷ ys) r))

  -- `listDelInit` takes a node of the list out, keeps the order of the others, and leaves the node as the
  -- head of an empty list of its own.
  pub list_del_init-remove :
      (l : ℕ) (xs : List ℕ) (x : ℕ) (ys : List ℕ)
      → IsRing h l (xs ++ x ∷ ys)
      → IsRing (list_del_init x h) l (xs ++ ys) × IsRing (list_del_init x h) x []
  unfolding list_del_init init_list
  list_del_init-remove l xs x ys r =
      let (p, q, d) = Distinct-split x (l ∷ xs) ys r.distinct in
      let kept = list_del-remove l xs x ys r in
      let apart : (has x (l ∷ xs ++ ys) ≡ false) = ground (arith, has-append x (l ∷ xs) ys) in
      (
        record {
          chain =
              Chain-frame l (xs ++ ys) l (λ a i. ground arith)
                (λ a i. ground (arith, has-append a (xs ++ ys) (l ∷ []))) kept.chain;
          distinct = kept.distinct;
        },
        record { chain = ground arith; distinct = ground arith },
      )
