-- ===== src/Pmm/Invariant.antt =====
-- The invariant of the page allocator.
use freak_os.Base.{
  ℕ, ◌+◌, ◌≤◌, ◌<◌, ◌^◌, ◌≡◌, true, false, List, arith, has, erase, Bool-cases, inl, inr,
}
use freak_os.Base.Bits.{get_bit}
use freak_os.Pmm.{Area}
use freak_os.Pmm.Mult.{
  mult, total, mult-erase, erase-has_of_ne, covers-le-mult, count_below-mult, count_below-le,
}

-- The free list `xs` with the sizes `f` describes a set of pages below `n`: no block is empty, none
-- reaches past `n`, and no page lies in two of them.
pub record IsPartition (n : ℕ) (f : ℕ → ℕ) (xs : List ℕ) : Type 0 where
  pub single : (i : ℕ) → mult f xs i ≤ 1
  pub positive : (x : ℕ) → has x xs ≡ true → 0 < f x
  pub within : (x : ℕ) → has x xs ≡ true → x + f x ≤ n

-- With 4 KB pages, 32 bits address at most 2 ^ 20 of them. `headed` is what makes `ff_free_pages`
-- notice that the head of a free block is freed again.
pub record IsArea (n : ℕ) (s : Area) : Type 0 where
  pub small : n ≤ 2 ^ 20
  pub blocks : IsPartition n s.property s.free_list
  pub headed : (x : ℕ) → has x s.free_list ≡ true → get_bit (s.flags x) 1 ≡ 1
  pub counted : s.free_page_count ≡ total s.property s.free_list

module _ {n : ℕ} {f : ℕ → ℕ} {xs : List ℕ} (v : IsPartition n f xs) where
  pub total-le : total f xs ≤ n
  total-le = omega (arith, count_below-mult n f xs v.within, count_below-le n (mult f xs) v.single)

  -- No block stands twice in the list.
  pub not-has-erase : (a : ℕ) → has a xs ≡ true → has a (erase a xs) ≡ false
  not-has-erase a h = elim (Bool-cases (has a (erase a xs))) [
    | inl e ↦ absurd (
        ground (
          arith,
          mult-erase f a xs a h,
          covers-le-mult f a (erase a xs) a e,
          v.single a,
          v.positive a h,
        ))
    | inr e ↦ e
  ]

  -- A page that a block covers beyond its head heads no block.
  pub not-has_of_covers : (a x : ℕ) → has a xs ≡ true → a < x → x < a + f a → has x xs ≡ false
  not-has_of_covers a x h lo hi = elim (Bool-cases (has x xs)) [
    | inl e ↦ absurd (
        ground (
          arith,
          mult-erase f a xs x h,
          covers-le-mult f x (erase a xs) x (erase-has_of_ne a x xs e (ground arith)),
          v.single x,
          v.positive x e,
        ))
    | inr e ↦ e
  ]

  -- The head of a block outside a range that no block covers.
  pub not-has_of_free : (x : ℕ) → mult f xs x ≡ 0 → has x xs ≡ false
  not-has_of_free x z = elim (Bool-cases (has x xs)) [
    | inl e ↦ absurd (ground (arith, covers-le-mult f x xs x e, v.positive x e))
    | inr e ↦ e
  ]
