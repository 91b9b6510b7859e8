-- ===== src/Vmm/Map.antt =====
-- `find_vma`, `insert_vma` and `mm_map` on a valid map.
use freak_os.Base.{
  ℕ, zero, suc, ◌+◌, ◌≤◌, ◌<◌, ◌≡◌, ◌≢◌, ◌⊎◌, ◌∙◌, sym, inl, inr, refl, Bool, true, false, List, [],
  ◌∷◌, Option, none, some, leb, arith, if◌then◌else◌, Bool-cases, length,
}
use freak_os.Base.Word.{add32, round_down, round_up, pg_size}
use mathlib.Core.Option as Opt
use freak_os.Vmm.{
  Vma, MemMap, holds, scan, cache_hit, find_result, find_vma, insert_behind, insert_vma,
  is_user_can_access,
}
use freak_os.Vmm.Areas.{Sorted, clash, Placed, insert_behind-Placed}

-- The cached area is the one that a search for any of its addresses gives.
abbrev pub IsCached : List Vma → Option Vma → Type 0
IsCached xs none = Unit {0}
IsCached xs (some v) = (a : ℕ) → holds v a ≡ true → scan xs a ≡ some v

pub record IsMap (mm : MemMap) : Type 0 where
  pub sorted : Sorted 0 mm.vma_list
  pub cached : IsCached mm.vma_list mm.vma_cache
  pub counted : mm.vma_count ≡ length mm.vma_list

scan-none_of_apart :
    (v : Vma) (xs : List Vma) (a : ℕ) → clash v xs ≡ false → holds v a ≡ true → scan xs a ≡ none
unfolding clash scan
scan-none_of_apart v [] a c h = refl
scan-none_of_apart v (x ∷ xs) a c h = ground (arith, scan-none_of_apart v xs a)

pub scan-holds : (xs : List Vma) (a : ℕ) (v : Vma) → scan xs a ≡ some v → holds v a ≡ true
unfolding scan
scan-holds [] a v e = cc
scan-holds (x ∷ xs) a v e = ground (arith, scan-holds xs a v)

-- In a sorted list two areas that share an address are one.
scan-le :
    (lo : ℕ) (xs : List Vma) (a : ℕ) (v : Vma) → Sorted lo xs → scan xs a ≡ some v → lo ≤ v.vm_start
unfolding scan
scan-le lo [] a v s e = cc
scan-le lo (x ∷ xs) a v s e = ground (arith, scan-le x.vm_end xs a v s.2)

pub scan_unique :
    (lo : ℕ) (xs : List Vma) (a b : ℕ) (v : Vma)
    → Sorted lo xs
    → scan xs a ≡ some v
    → holds v b ≡ true
    → scan xs b ≡ some v
unfolding scan
scan_unique lo [] a b v s e h = cc
scan_unique lo (x ∷ xs) a b v s e h = elim (Bool-cases (holds x a)) [
  | inl here ↦ ground arith
  | inr there ↦ ground (arith, scan_unique x.vm_end xs a b v s.2, scan-le x.vm_end xs a v s.2)
]

-- On a valid map, `find_vma` gives what a search of the list gives, whatever its cache says, keeps the
-- list, and leaves the map valid.
pub find_vma_lem :
    (mm : MemMap) (vaddr : ℕ)
    → IsMap mm
    → let (vma, mm') = find_vma mm vaddr in
      (vma ≡ scan mm.vma_list vaddr) × (mm'.vma_list ≡ mm.vma_list) × IsMap mm'
unfolding find_vma
find_vma_lem mm vaddr v = elim (Bool-cases (cache_hit mm.vma_cache vaddr)) [
  | inl hit ↦ rw hit (cached mm.vma_cache v.cached hit, refl, v)
  | inr miss ↦ rw miss (searched (scan mm.vma_list vaddr) refl)
]
  where
    cached :
        (c : Option Vma)
        → IsCached mm.vma_list c
        → cache_hit c vaddr ≡ true
        → c ≡ scan mm.vma_list vaddr
    cached none k hit = cc
    cached (some c) k hit = sym (k vaddr hit)

    searched :
        (o : Option Vma)
        → scan mm.vma_list vaddr ≡ o
        → let (vma, mm') = find_result mm o in (vma ≡ o) × (mm'.vma_list ≡ mm.vma_list) × IsMap mm'
    searched none e = (refl, refl, v)
    searched (some x) e = (
      refl,
      refl,
      record {
        sorted = v.sorted;
        cached = λ a h. scan_unique 0 mm.vma_list vaddr a x v.sorted e h;
        counted = v.counted;
      },
    )

-- What `insert_vma` makes of the map: it stops where the area is empty or shares an address with
-- another one, and else adds its addresses.
abbrev pub Inserted : MemMap → Vma → Option MemMap → Type 0
Inserted mm v none = (v.vm_end ≤ v.vm_start) ⊎ (clash v mm.vma_list ≡ true)
Inserted mm v (some m) =
    IsMap m
    × (v.vm_start < v.vm_end)
    × (clash v mm.vma_list ≡ false)
    × ((a : ℕ) → scan m.vma_list a ≡ (if holds v a then some v else scan mm.vma_list a))

module _ (mm : MemMap) (v : Vma) (m : IsMap mm) where
  cache_kept :
      (ys : List Vma) (c : Option Vma)
      → clash v mm.vma_list ≡ false
      → ((a : ℕ) → scan ys a ≡ (if holds v a then some v else scan mm.vma_list a))
      → IsCached mm.vma_list c
      → IsCached ys c
  cache_kept ys none apart same k = tt
  cache_kept ys (some c) apart same k = λ a h. elim (Bool-cases (holds v a)) [
    | inl both ↦ absurd (ground (arith, k a h, scan-none_of_apart v mm.vma_list a apart both))
    | inr other ↦ same a ∙ rw other (k a h)
  ]

  insert_map :
      (o : Option (List Vma))
      → v.vm_start < v.vm_end
      → Placed none 0 v mm.vma_list o
      → Inserted mm v
          (Opt.map (λ vmas. record mm { vma_list = vmas; vma_count = mm.vma_count + 1 }) o)
  insert_map none ne (inl bad) = cc
  insert_map none ne (inr bad) = inr bad
  insert_map (some ys) ne (good, apart, sorted, len, same) = (
    record {
      sorted = sorted;
      cached = cache_kept ys mm.vma_cache apart same m.cached;
      counted = omega (arith, m.counted, len);
    },
    ne,
    apart,
    same,
  )

-- On a valid map, `insert_vma` panics only where the area is empty or shares an address with one of the
-- map; else the map stays valid, the area was neither, and each address is looked up in the new area first
-- and then as before.
pub insert_vma-Inserted : (mm : MemMap) (v : Vma) → IsMap mm → Inserted mm v (insert_vma mm v)
unfolding insert_vma
insert_vma-Inserted mm v m = elim (Bool-cases (leb v.vm_end v.vm_start)) [
  | inl bad ↦ rw bad (inl (ground arith))
  | inr good ↦ rw good (
      insert_map mm v m (insert_behind none v mm.vma_list) (ground arith)
        (insert_behind-Placed none 0 v mm.vma_list (ground arith) refl m.sorted))
]

-- The area that `mm_map` asks for.
abbrev pub wanted : ℕ → ℕ → ℕ → Vma
wanted start_vaddr len vm_flags = record {
  vm_start = round_down start_vaddr pg_size;
  vm_end = round_up (add32 start_vaddr len) pg_size;
  vm_flags = vm_flags;
}

-- What `mm_map` does. The machine stops where the area shares an address with another one but no
-- area holds its start; a code other than 0 leaves the areas as they are.
abbrev pub Mapped : MemMap → Vma → Bool → Option (ℕ × MemMap) → Type 0
Mapped mm v got none =
    (got ≡ true) × (scan mm.vma_list v.vm_start ≡ none) × (clash v mm.vma_list ≡ true)
Mapped mm v got (some (zero, m)) =
    IsMap m
    × (is_user_can_access v.vm_start v.vm_end ≡ true)
    × ((a : ℕ) → scan m.vma_list a ≡ (if holds v a then some v else scan mm.vma_list a))
Mapped mm v got (some (suc k, m)) =
    IsMap m
    × (m.vma_list ≡ mm.vma_list)
    × ((is_user_can_access v.vm_start v.vm_end ≡ false)
        ⊎ (scan mm.vma_list v.vm_start ≢ none)
        ⊎ (got ≡ false))
