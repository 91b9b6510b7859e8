-- ===== src/Tasks/Family.antt =====
-- Which children the links of a task stand for.
use freak_os.Base.{ℕ, ◌≡◌, ◌⊎◌, inl, inr, true, false, List, [], ◌∷◌, arith, ◌==◌, has, Distinct}
use freak_os.Tasks.{Tasks}

-- From `c` the links to older siblings lead through `xs`, all children of `p`; `y` is the sibling in front.
abbrev pub Siblings : Tasks → ℕ → ℕ → ℕ → List ℕ → Type 0
Siblings s p y c [] = c ≡ 0
Siblings s p y c (x ∷ xs) =
    (c ≡ x) × ((x == 0) ≡ false) × (s.parent x ≡ p) × (s.yptr x ≡ y) × Siblings s p x (s.optr x) xs

-- The children of `p` are `xs`, the youngest first.
pub record IsFamily (s : Tasks) (p : ℕ) (xs : List ℕ) : Type 0 where
  pub chain : Siblings s p 0 (s.cptr p) xs
  pub distinct : Distinct xs

-- A chain only reads the links of its members, and the one that leads to it.
pub Siblings-frame :
    (s t : Tasks) (p y c : ℕ) (xs : List ℕ)
    → ((x : ℕ)
        → has x xs ≡ true
        → (t.parent x ≡ s.parent x) × (t.yptr x ≡ s.yptr x) × (t.optr x ≡ s.optr x))
    → Siblings s p y c xs
    → Siblings t p y c xs
Siblings-frame s t p y c [] same k = k
Siblings-frame s t p y c (x ∷ xs) same (e, n, q, w, k) =
    let rest = Siblings-frame s t p x (s.optr x) xs (λ z h. same z (ground arith)) k in
    let (a, b, o) = same x (ground arith) in (e, n, ground arith, ground arith, rw o rest)

-- The first task of a chain is NULL or a member.
pub next-has :
    (s : Tasks) (p y c : ℕ) (xs : List ℕ)
    → Siblings s p y c xs
    → ((c == 0) ≡ true) ⊎ (has c xs ≡ true)
next-has s p y c [] k = inl (ground arith)
next-has s p y c (x ∷ xs) (e, n, q, w, k) = inr (ground arith)
