-- ===== src/LinkedList/Ring.antt =====
-- What a heap of list nodes stands for: the sequence of the nodes behind a head.
use freak_os.Base.{
  ℕ, true, false, List, [], ◌∷◌, ◌++◌, ◌≡◌, refl, has, has-append, Distinct, arith, append-nil,
}
use freak_os.LinkedList.{Heap}

-- From `p` the pointers lead through `xs` to `q`, and back.
abbrev pub Chain : Heap → ℕ → List ℕ → ℕ → Type 0
Chain h p [] q = (h.next p ≡ q) × (h.prev q ≡ p)
Chain h p (x ∷ xs) q = (h.next p ≡ x) × (h.prev x ≡ p) × Chain h x xs q

-- The circular list with the head `l` holds `xs`.
pub record IsRing (h : Heap) (l : ℕ) (xs : List ℕ) : Type 0 where
  pub chain : Chain h l xs l
  pub distinct : Distinct (l ∷ xs)

module _ (h : Heap) where
  pub Chain-split :
      (p : ℕ) (xs : List ℕ) (y : ℕ) (ys : List ℕ) (q : ℕ)
      → Chain h p (xs ++ y ∷ ys) q
      → Chain h p xs y × Chain h y ys q
  Chain-split p [] y ys q c = ((c.0, c.1), c.2)
  Chain-split p (x ∷ xs) y ys q c = let (a, b) = Chain-split x xs y ys q c.2 in ((c.0, c.1, a), b)

  pub Chain-join :
      (p : ℕ) (xs : List ℕ) (y : ℕ) (ys : List ℕ) (q : ℕ)
      → Chain h p xs y
      → Chain h y ys q
      → Chain h p (xs ++ y ∷ ys) q
  Chain-join p [] y ys q a b = (a.0, a.1, b)
  Chain-join p (x ∷ xs) y ys q a b = (a.0, a.1, Chain-join x xs y ys q a.2 b)

-- A chain survives writes to `next` outside its sources and to `prev` outside its targets.
pub Chain-frame :
    {h g : Heap} (p : ℕ) (xs : List ℕ) (q : ℕ)
    → ((a : ℕ) → has a (p ∷ xs) ≡ true → g.next a ≡ h.next a)
    → ((a : ℕ) → has a (xs ++ q ∷ []) ≡ true → g.prev a ≡ h.prev a)
    → Chain h p xs q
    → Chain g p xs q
Chain-frame p [] q n v c = ground (arith, n p, v q)
Chain-frame p (x ∷ xs) q n v c = (
  ground (arith, n p),
  ground (arith, v x),
  Chain-frame x xs q (λ a i. n a (ground arith)) (λ a i. v a (ground arith)) c.2,
)

-- The last source and the first target of a chain.
pub has-prev :
    (h : Heap) (p : ℕ) (xs : List ℕ) (q : ℕ) → Chain h p xs q → has (h.prev q) (p ∷ xs) ≡ true
has-prev h p [] q c = ground arith
has-prev h p (x ∷ xs) q c = ground (arith, has-prev h x xs q c.2)

pub has-next :
    (h : Heap) (p : ℕ) (xs : List ℕ) (q : ℕ) → Chain h p xs q → has (h.next p) (xs ++ q ∷ []) ≡ true
has-next h p [] q c = ground arith
has-next h p (x ∷ xs) q c = ground arith

pub Distinct-split :
    (a : ℕ) (xs ys : List ℕ)
    → Distinct (xs ++ a ∷ ys)
    → (has a xs ≡ false) × (has a ys ≡ false) × Distinct (xs ++ ys)
Distinct-split a [] ys d = (refl, d.0, d.1)
Distinct-split a (x ∷ xs) ys d =
    let (p, q, r) = Distinct-split a xs ys d.1 in
    (
      ground (arith, has-append x xs (a ∷ ys)),
      q,
      (ground (arith, has-append x xs (a ∷ ys), has-append x xs ys), r),
    )

pub Distinct-insert :
    (a : ℕ) (xs ys : List ℕ)
    → Distinct (xs ++ ys)
    → has a xs ≡ false
    → has a ys ≡ false
    → Distinct (xs ++ a ∷ ys)
Distinct-insert a [] ys d p q = (q, d)
Distinct-insert a (x ∷ xs) ys d p q = (
  ground (arith, has-append x xs (a ∷ ys), has-append x xs ys),
  Distinct-insert a xs ys d.1 (ground arith) q,
)

pub Distinct-comm : (xs ys : List ℕ) → Distinct (xs ++ ys) → Distinct (ys ++ xs)
Distinct-comm [] ys d = rw append-nil d
Distinct-comm (x ∷ xs) ys d =
    Distinct-insert x ys xs (Distinct-comm xs ys d.1) (ground (arith, has-append x xs ys))
      (ground (arith, has-append x xs ys))

-- A ring may be entered at any of its nodes.
pub IsRing-rotate :
    {h : Heap} (l : ℕ) (xs : List ℕ) (p : ℕ) (ys : List ℕ)
    → IsRing h l (xs ++ p ∷ ys)
    → IsRing h p (ys ++ l ∷ xs)
IsRing-rotate {h} l xs p ys r =
    let (a, b) = Chain-split h l xs p ys l r.chain in
    record {
      chain = Chain-join h p ys l xs p b a;
      distinct = Distinct-comm (l ∷ xs) (p ∷ ys) r.distinct;
    }
