-- ===== src/Pmm/Mult.antt =====
-- How often the blocks of a free list cover a page: the order-free view of the list.
use freak_os.Base.{
  ℕ, zero, suc, ◌+◌, ◌-◌, ◌≤◌, ◌≡◌, refl, true, false, ◌&&◌, ◌||◌, List, [], ◌∷◌, arith, ltb, leb,
  ◌==◌, if◌then◌else◌, has, erase,
}
use freak_os.Pmm.{insert_after}

-- Whether the `n` pages from `p` on hold the page `i`.
abbrev pub covers : ℕ → ℕ → ℕ → ℕ
covers p n i = if leb p i && ltb i (p + n) then 1 else 0

abbrev pub mult : (ℕ → ℕ) → List ℕ → ℕ → ℕ
mult f [] i = 0
mult f (x ∷ xs) i = covers x (f x) i + mult f xs i

abbrev pub total : (ℕ → ℕ) → List ℕ → ℕ
total f [] = 0
total f (x ∷ xs) = f x + total f xs

pub has-erase : (a x : ℕ) (xs : List ℕ) → has x (erase a xs) ≡ true → has x xs ≡ true
has-erase a x [] h = h
has-erase a x (y ∷ ys) h = ground (arith, has-erase a x ys)

pub erase-has_of_ne :
    (a x : ℕ) (xs : List ℕ) → has x xs ≡ true → (x == a) ≡ false → has x (erase a xs) ≡ true
erase-has_of_ne a x [] h ne = h
erase-has_of_ne a x (y ∷ ys) h ne = ground (arith, erase-has_of_ne a x ys)

pub has-insert_after :
    (a b x : ℕ) (xs : List ℕ) → has x (insert_after a b xs) ≡ true → ((x == b) || has x xs) ≡ true
has-insert_after a b x [] h = ground arith
has-insert_after a b x (y ∷ ys) h = ground (arith, has-insert_after a b x ys)

pub insert_after-has :
    (a b x : ℕ) (xs : List ℕ) → has x xs ≡ true → has x (insert_after a b xs) ≡ true
insert_after-has a b x [] h = h
insert_after-has a b x (y ∷ ys) h = ground (arith, insert_after-has a b x ys)

module _ (f : ℕ → ℕ) where
  pub mult-erase :
      (a : ℕ) (xs : List ℕ) (i : ℕ)
      → has a xs ≡ true
      → mult f xs i ≡ covers a (f a) i + mult f (erase a xs) i
  mult-erase a [] i h = ground arith
  mult-erase a (x ∷ xs) i h = ground (arith, mult-erase a xs i)

  pub mult-insert_after :
      (a b : ℕ) (xs : List ℕ) (i : ℕ)
      → has a xs ≡ true
      → mult f (insert_after a b xs) i ≡ covers b (f b) i + mult f xs i
  mult-insert_after a b [] i h = ground arith
  mult-insert_after a b (x ∷ xs) i h = ground (arith, mult-insert_after a b xs i)

  pub total-erase :
      (a : ℕ) (xs : List ℕ) → has a xs ≡ true → total f xs ≡ f a + total f (erase a xs)
  total-erase a [] h = ground arith
  total-erase a (x ∷ xs) h = ground (arith, total-erase a xs)

  pub total-insert_after :
      (a b : ℕ) (xs : List ℕ) → has a xs ≡ true → total f (insert_after a b xs) ≡ f b + total f xs
  total-insert_after a b [] h = ground arith
  total-insert_after a b (x ∷ xs) h = ground (arith, total-insert_after a b xs)

  pub covers-le-mult :
      (x : ℕ) (xs : List ℕ) (i : ℕ) → has x xs ≡ true → covers x (f x) i ≤ mult f xs i
  covers-le-mult x [] i h = ground arith
  covers-le-mult x (y ∷ ys) i h = ground (arith, covers-le-mult x ys i)

-- Only the sizes of the blocks in the list count.
pub mult-agree :
    (f g : ℕ → ℕ) (xs : List ℕ) (i : ℕ)
    → ((x : ℕ) → has x xs ≡ true → g x ≡ f x)
    → mult g xs i ≡ mult f xs i
mult-agree f g [] i h = refl
mult-agree f g (x ∷ xs) i h = ground (arith, h x, mult-agree f g xs i (λ y e. h y (ground arith)))

pub total-agree :
    (f g : ℕ → ℕ) (xs : List ℕ) → ((x : ℕ) → has x xs ≡ true → g x ≡ f x) → total g xs ≡ total f xs
total-agree f g [] h = refl
total-agree f g (x ∷ xs) h = ground (arith, h x, total-agree f g xs (λ y e. h y (ground arith)))

-- The pages below `n` that are covered, counted with their multiplicity.
abbrev pub count_below : ℕ → (ℕ → ℕ) → ℕ
count_below zero m = 0
count_below (suc n) m = m n + count_below n m

count_below-add :
    (n : ℕ) (a b : ℕ → ℕ) → count_below n (λ i. a i + b i) ≡ count_below n a + count_below n b
count_below-add zero a b = refl
count_below-add (suc n) a b = omega (arith, count_below-add n a b)

count_below-zero : (n : ℕ) → count_below n (λ i. 0) ≡ 0
count_below-zero zero = refl
count_below-zero (suc n) = omega (arith, count_below-zero n)

-- Of the pages below `k`, those of the block are the ones past its start, its length at most.
count_below-covers :
    (n x k : ℕ)
    → count_below n (covers x k) ≡ (if leb n x then 0 else if leb n (x + k) then n - x else k)
count_below-covers zero x k = ground arith
count_below-covers (suc n) x k = ground (arith, count_below-covers n x k)

-- The sizes of the blocks add up to the number of pages covered.
pub count_below-mult :
    (n : ℕ) (f : ℕ → ℕ) (xs : List ℕ)
    → ((x : ℕ) → has x xs ≡ true → x + f x ≤ n)
    → count_below n (mult f xs) ≡ total f xs
count_below-mult n f [] h = count_below-zero n
count_below-mult n f (x ∷ xs) h = ground (
  arith,
  h x,
  count_below-add n (covers x (f x)) (mult f xs),
  count_below-covers n x (f x),
  count_below-mult n f xs (λ y e. h y (ground arith)),
)

pub count_below-le : (n : ℕ) (m : ℕ → ℕ) → ((i : ℕ) → m i ≤ 1) → count_below n m ≤ n
count_below-le zero m h = omega arith
count_below-le (suc n) m h = omega (arith, h n, count_below-le n m h)
