-- ===== src/Vmm/Areas.antt =====
-- The areas of a map stay sorted and disjoint, and `insert_vma` stops the machine otherwise.
use freak_os.Base.{
  ℕ, ◌+◌, ◌≤◌, ◌<◌, ◌≡◌, ◌⊎◌, ◌↔◌, inl, inr, refl, Bool, true, false, ◌&&◌, ◌||◌, List, [], ◌∷◌,
  Option, none, some, ltb, arith, if◌then◌else◌, Bool-cases, length,
}
use mathlib.Core.Option as Opt
use freak_os.Vmm.{
  is_user_can_access, user_base, user_top, Vma, holds, scan, check_vma_overlap, check_prev,
  insert_behind,
}

-- From `lo` on, in order, not empty and disjoint.
abbrev pub Sorted : ℕ → List Vma → Type 0
Sorted lo [] = Unit {0}
Sorted lo (x ∷ xs) = (lo ≤ x.vm_start) × (x.vm_start < x.vm_end) × Sorted x.vm_end xs

-- Whether an area shares an address with one of the list.
unfoldable pub clash : Vma → List Vma → Bool
clash v [] = false
clash v (x ∷ xs) = (ltb v.vm_start x.vm_end && ltb x.vm_start v.vm_end) || clash v xs

clash_of_after :
    (v : Vma) (lo : ℕ) (xs : List Vma) → Sorted lo xs → v.vm_end ≤ lo → clash v xs ≡ false
unfolding clash
clash_of_after v lo [] s h = refl
clash_of_after v lo (x ∷ xs) s h = ground (arith, clash_of_after v x.vm_end xs s.2)

-- The area before the place that the walk has come to.
abbrev pub Before : Option Vma → ℕ → Vma → Type 0
Before none lo v = lo ≡ 0
Before (some p) lo v = (lo ≡ p.vm_end) × (p.vm_start < p.vm_end) × (p.vm_start ≤ v.vm_start)

abbrev pub Placed : Option Vma → ℕ → Vma → List Vma → Option (List Vma) → Type 0
Placed prev lo v xs none = (check_prev prev v ≡ false) ⊎ (clash v xs ≡ true)
Placed prev lo v xs (some ys) =
    (check_prev prev v ≡ true)
    × (clash v xs ≡ false)
    × Sorted lo ys
    × (length ys ≡ length xs + 1)
    × ((a : ℕ) → scan ys a ≡ (if holds v a then some v else scan xs a))

check_prev-le :
    (prev : Option Vma) (lo : ℕ) (v : Vma)
    → v.vm_start < v.vm_end
    → Before prev lo v
    → (check_prev prev v ≡ true) ↔ (lo ≤ v.vm_start)
unfolding check_vma_overlap
check_prev-le none lo v ne b = (λ e. omega arith, λ e. refl)
check_prev-le (some p) lo v ne b = (λ e. ground arith, λ e. ground arith)

-- The walk has found the place: `x` begins behind `v`.
place_here :
    (prev : Option Vma) (lo : ℕ) (v x : Vma) (xs : List Vma)
    → v.vm_start < v.vm_end
    → Before prev lo v
    → Sorted lo (x ∷ xs)
    → v.vm_start < x.vm_start
    → Placed prev lo v
        (x ∷ xs)
        (if check_prev prev v && check_vma_overlap v x then some (v ∷ x ∷ xs) else none)
unfolding scan clash check_vma_overlap
place_here prev lo v x xs ne b s lt = elim (Bool-cases (check_prev prev v)) [
  | inr bad ↦ rw bad (inl bad)
  | inl good ↦ elim (Bool-cases (check_vma_overlap v x)) [
    | inl fits ↦
        rw (good, fits)
          (
            good,
            ground (arith, clash_of_after v x.vm_end xs s.2),
            ((check_prev-le prev lo v ne b).0 good, ne, (ground arith, s.1, s.2)),
            omega arith,
            λ a. refl,
          )
    | inr bad ↦ rw (good, bad) (inr (ground arith))
  ]
]

-- The walk goes past `x`.
place_after :
    (prev : Option Vma) (lo : ℕ) (v x : Vma) (xs : List Vma) (o : Option (List Vma))
    → v.vm_start < v.vm_end
    → Before prev lo v
    → Sorted lo (x ∷ xs)
    → x.vm_start ≤ v.vm_start
    → Placed (some x) x.vm_end v xs o
    → Placed prev lo v (x ∷ xs) (Opt.map (λ ys. x ∷ ys) o)
unfolding scan clash check_vma_overlap
place_after prev lo v x xs none ne b s le (inl bad) = inr (ground arith)
place_after prev lo v x xs none ne b s le (inr bad) = inr (ground arith)
place_after prev lo v x xs (some ys) ne b s le (good, apart, sorted, len, same) = (
  (check_prev-le prev lo v ne b).1 (omega arith),
  ground arith,
  (s.0, s.1, sorted),
  omega arith,
  λ a. ground (arith, same a),
)

pub insert_behind-Placed :
    (prev : Option Vma) (lo : ℕ) (v : Vma) (xs : List Vma)
    → v.vm_start < v.vm_end
    → Before prev lo v
    → Sorted lo xs
    → Placed prev lo v xs (insert_behind prev v xs)
unfolding insert_behind clash scan
insert_behind-Placed prev lo v [] ne b s = elim (Bool-cases (check_prev prev v)) [
  | inl good ↦
      rw good (good, refl, ((check_prev-le prev lo v ne b).0 good, ne, tt), refl, λ a. refl)
  | inr bad ↦ rw bad (inl bad)
]
insert_behind-Placed prev lo v (x ∷ xs) ne b s = elim (Bool-cases (ltb v.vm_start x.vm_start)) [
  | inl here ↦ rw here (place_here prev lo v x xs ne b s (ground arith))
  | inr past ↦ rw past (
      place_after prev lo v x xs (insert_behind (some x) v xs) ne b s (ground arith)
        (insert_behind-Placed (some x) x.vm_end v xs ne (refl, s.1, ground arith) s.2))
]

-- A range that user code may use is not empty and lies in the user's part.
pub is_user_can_access_lem :
    (start end : ℕ)
    → is_user_can_access start end ≡ true
    → (user_base ≤ start) × (start < end) × (end ≤ user_top)
unfolding is_user_can_access
is_user_can_access_lem start end h = ground arith
