-- ===== src/Vmm/Check.antt =====
-- What `checkUserMem` accepts.
use freak_os.Base.{
  ℕ, zero, suc, ◌+◌, ◌-◌, ◌≤◌, ◌<◌, ◌≡◌, ◌⊎◌, sym, inl, inr, refl, Bool, true, false, List, Option,
  none, some, ltb, arith, Bool-cases, ltb→lt,
}
use freak_os.Base.Word.{add32}
use mathlib.Core.Option as Opt
use freak_os.Vmm.{
  Vma, MemMap, holds, scan, find_vma, permits, check_area, check_areas, check_user_mem,
  is_user_can_access,
}
use freak_os.Vmm.Areas.{Sorted}
use native.Mathlib.Nat.{le_refl}
use native.Mathlib.Numerals.{add-one}
use freak_os.Vmm.Map.{IsMap, find_vma_lem, scan-holds, scan_unique}

-- Whether the address lies in an area that permits the access.
abbrev pub permitted : Option Vma → ℕ → Bool → Bool
permitted none a write = false
permitted (some v) a write = permits v a write

abbrev pub allowed : List Vma → ℕ → Bool → Bool
allowed xs a write = permitted (scan xs a) a write

-- The outcome of the loop from `start` on: every address up to `len` is allowed, or one is not.
abbrev pub Checked : List Vma → ℕ → ℕ → Bool → Option (Bool × MemMap) → Type 0
Checked xs start len write none = ⊥
Checked xs start len write (some (true, m)) =
    IsMap m × (m.vma_list ≡ xs) × ((a : ℕ) → start ≤ a → a < len → allowed xs a write ≡ true)
Checked xs start len write (some (false, m)) =
    IsMap m × (m.vma_list ≡ xs) × (a : ℕ) × (start ≤ a) × (a < len) × (allowed xs a write ≡ false)

permits_mono :
    (v : Vma) (s a : ℕ) (write : Bool) → permits v s write ≡ true → s ≤ a → permits v a write ≡ true
unfolding permits
permits_mono v s a write h le = ground arith

-- The area that holds `start` is passed, and the loop goes on behind it.
check_rest :
    (xs : List Vma) (v : Vma) (start len : ℕ) (write : Bool) (o : Option (Bool × MemMap))
    → scan xs start ≡ some v
    → ((a : ℕ) → holds v a ≡ true → scan xs a ≡ some v)
    → permits v start write ≡ true
    → Checked xs v.vm_end len write o
    → Checked xs start len write o
check_rest xs v start len write none e same ok c = c
check_rest xs v start len write (some (true, m)) e same ok (is, l, all) = (
  is,
  l,
  λ a lo hi. elim (Bool-cases (ltb a v.vm_end)) [
    | inl in_area ↦
        let inside : holds v a ≡ true = ground (arith, scan-holds xs start v e) in
        rw (same a inside) (permits_mono v start a write ok lo)
    | inr past ↦ all a (ground arith) hi
  ],
)
check_rest xs v start len write (some (false, m)) e same ok (is, l, a, lo, hi, bad) =
    (is, l, a, omega (arith, end-after), hi, bad)
  where
    end-after : start < v.vm_end
    end-after = ground (arith, scan-holds xs start v e)

check_area-Checked :
    (xs : List Vma) (o : Option Vma) (mm : MemMap) (start len : ℕ) (write : Bool)
    (go_on : ℕ → Option (Bool × MemMap))
    → Sorted 0 xs
    → IsMap mm
    → mm.vma_list ≡ xs
    → o ≡ scan xs start
    → start < len
    → ((end : ℕ) → start < end → Checked xs end len write (go_on end))
    → Checked xs start len write (check_area o mm start write go_on)
unfolding check_area
check_area-Checked xs none mm start len write go_on s is l e lt next =
    (is, l, start, le_refl start, lt, rw (← e))
check_area-Checked xs (some v) mm start len write go_on s is l e lt next =
    elim (Bool-cases (permits v start write)) [
      | inl ok ↦ rw ok (
          check_rest xs v start len write (go_on v.vm_end) (sym e)
            (λ a h. scan_unique 0 xs start a v s (sym e) h) ok
            (next v.vm_end (ground (arith, scan-holds xs start v (sym e)))))
      | inr bad ↦ rw bad (is, l, start, le_refl start, lt, rw (← e) bad)
    ]

check_areas-Checked :
    (fuel : ℕ) (mm : MemMap) (start len : ℕ) (write : Bool)
    → IsMap mm
    → len - start < fuel
    → Checked mm.vma_list start len write (check_areas fuel mm start len write)
unfolding check_areas
check_areas-Checked zero mm start len write is f = absurd (omega arith)
check_areas-Checked (suc fuel) mm start len write is f =
    let (found, same, is') = find_vma_lem mm start is in
    let mm' = (find_vma mm start).1 in
    elim (Bool-cases (ltb start len)) [
      | inl more ↦ rw more (
          check_area-Checked mm.vma_list (find_vma mm start).0 mm' start len write _ is.sorted is'
            same found (ground arith)
            (λ end lt. rw same at (
              check_areas-Checked fuel mm' end len write is'
                (omega (arith, ltb→lt start len more)))))
      | inr done ↦ rw done (is, refl, λ a lo hi. absurd (ground arith))
    ]

-- `checkUserMem` on the range from `addr` on: `true` only inside the user's part of the address
-- space, and then each address from `addr` up to `len`, the bound of the loop, is allowed; `false`
-- only outside that part, or where one of these is not.
abbrev pub Judged : List Vma → ℕ → ℕ → Bool → Option (Bool × Option MemMap) → Type 0
Judged xs addr len write none = ⊥
Judged xs addr len write (some (ok, none)) = ⊥
Judged xs addr len write (some (true, some m)) =
    IsMap m
    × (m.vma_list ≡ xs)
    × (is_user_can_access addr (add32 addr len) ≡ true)
    × ((a : ℕ) → addr ≤ a → a < len → allowed xs a write ≡ true)
Judged xs addr len write (some (false, some m)) =
    IsMap m
    × (m.vma_list ≡ xs)
    × ((is_user_can_access addr (add32 addr len) ≡ false)
        ⊎ ((a : ℕ) × (addr ≤ a) × (a < len) × (allowed xs a write ≡ false)))

judge :
    (xs : List Vma) (addr len : ℕ) (write : Bool) (o : Option (Bool × MemMap))
    → is_user_can_access addr (add32 addr len) ≡ true
    → Checked xs addr len write o
    → Judged xs addr len write (Opt.map (λ (ok, mm'). (ok, some mm')) o)
judge xs addr len write none ok c = c
judge xs addr len write (some (true, m)) ok (is, l, all) = (is, l, ok, all)
judge xs addr len write (some (false, m)) ok (is, l, a, lo, hi, bad) = (is, l, inr (a, lo, hi, bad))

-- On a valid map, `checkUserMem` always returns. `true` is only said of a range inside the user's part of
-- the address space, and then each address from `addr` up to `len`, the bound of the loop, lies in an area
-- that permits the access; `false` is only said outside that part, or where one of these addresses does not
-- lie in such an area. The map stays valid with the same areas.
pub check_user_mem-Judged :
    (mm : MemMap) (addr len : ℕ) (write : Bool)
    → IsMap mm
    → Judged mm.vma_list addr len write (check_user_mem (some mm) addr len write)
unfolding check_user_mem
check_user_mem-Judged mm addr len write is =
    elim (Bool-cases (is_user_can_access addr (add32 addr len))) [
      | inl ok ↦ rw ok (
          judge mm.vma_list addr len write (check_areas (len + 1) mm addr len write) ok
            (check_areas-Checked (len + 1) mm addr len write is (omega arith)))
      | inr bad ↦ rw bad (is, refl, inl bad)
    ]

check_areas_done :
    (fuel : ℕ) (mm : MemMap) (start len : ℕ) (write : Bool)
    → len ≤ start
    → check_areas (suc fuel) mm start len write ≡ some (true, mm)
unfolding check_areas
check_areas_done fuel mm start len write le =
    let done : ltb start len ≡ false = ground arith in rw done

-- A range in the user's part of the address space that begins at or above its own length is accepted,
-- whatever the map holds.
pub check_user_mem-unchecked :
    (mm : MemMap) (addr len : ℕ) (write : Bool)
    → is_user_can_access addr (add32 addr len) ≡ true
    → len ≤ addr
    → check_user_mem (some mm) addr len write ≡ some (true, some mm)
unfolding check_user_mem
check_user_mem-unchecked mm addr len write ok le =
    rw (ok, add-one, check_areas_done len mm addr len write le)
