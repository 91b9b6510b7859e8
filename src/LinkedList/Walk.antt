-- ===== src/LinkedList/Walk.antt =====
-- `listIsEmpty` and `listForEach` read the sequence.
use freak_os.Base.{
  ℕ, zero, suc, ◌<◌, true, false, List, [], ◌∷◌, ◌≡◌, ◌↔◌, refl, some, has, arith, length,
}
use freak_os.LinkedList.{Heap, list_is_empty, for_each_from, list_for_each}
use freak_os.LinkedList.Ring.{Chain, IsRing}

-- `listIsEmpty` says whether the sequence is empty.
pub list_is_empty-nil :
    {h : Heap} (l : ℕ) (xs : List ℕ) → IsRing h l xs → (list_is_empty l h ≡ true) ↔ (xs ≡ [])
unfolding list_is_empty
list_is_empty-nil l [] r = (λ e. refl, λ e. ground arith)
list_is_empty-nil l (x ∷ xs) r = (λ e. ground arith, λ e. ground arith)

for_each_from_lem :
    (h : Heap) (fuel p l : ℕ) (xs : List ℕ)
    → Chain h p xs l
    → has l xs ≡ false
    → length xs < fuel
    → for_each_from fuel (h.next p) l h ≡ some xs
unfolding for_each_from
for_each_from_lem h zero p l xs c out f = absurd (omega arith)
for_each_from_lem h (suc fuel) p l [] c out f = ground arith
for_each_from_lem h (suc fuel) p l (x ∷ xs) c out f =
    ground (arith, for_each_from_lem h fuel x l xs c.2)

-- With more fuel than the list has nodes, `listForEach` ends, and has visited the nodes of the list in
-- order.
pub list_for_each_lem :
    {h : Heap} (fuel l : ℕ) (xs : List ℕ)
    → IsRing h l xs
    → length xs < fuel
    → list_for_each fuel l h ≡ some xs
unfolding list_for_each
list_for_each_lem {h} fuel l xs r f = for_each_from_lem h fuel l l xs r.chain r.distinct.0 f
