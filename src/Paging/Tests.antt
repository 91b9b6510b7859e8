-- ===== src/Paging/Tests.antt =====
-- An address space in sixteen frames: the directory in frame 1, a table in frame 2, and the virtual page 517
-- mapped to frame 3. The frames 8 to 11 are free.
use freak_os.Base.{
  ℕ, ◌≤◌, ◌<◌, ◌≡◌, ◌⊎◌, ◌∙◌, inl, inr, refl, arith, ◌&&◌, ◌==◌, if◌then◌else◌, update, [], ◌∷◌,
  some,
}
use freak_os.Base.Bits.{get_bit}
use freak_os.Pmm.{Area}
use freak_os.Pmm.Invariant.{IsArea}
use freak_os.Paging.{Memory, page_remove}
use freak_os.Paging.Tree.{pte_at, IsTree}
use freak_os.Paging.Count.{count_names, count_names-change, count_names-zero}
use freak_os.Paging.Remove.{IsRemoved, page_remove-IsRemoved}
use freak_os.Paging.Space.{IsSpace, IsHeld, IsNeeded}

abbrev pub small_area : Area
small_area = record {
  flags = update (λ i. 0) 8 2;
  property = update (λ i. 0) 8 4;
  ref = λ x. if x == 3 then 1 else 0;
  free_list = 8 ∷ [];
  free_page_count = 4;
}

abbrev pub small_words : ℕ → ℕ → ℕ
small_words f i = if (f == 1) && (i == 0) then 8199 else if (f == 2) && (i == 517) then 12295 else 0

abbrev pub small_memory : Memory
small_memory = record { frames = small_area; words = small_words; page_count = 16 }

small_area-IsArea : IsArea 16 small_area
unfolding get_bit
small_area-IsArea = record {
  small = omega arith;
  blocks = record {
    single = λ i. ground arith;
    positive = λ x k. ground arith;
    within = λ x k. ground arith;
  };
  headed = λ x k. ground arith;
  counted = refl;
}

-- Only the virtual page 517 has an entry.
small_pte : (v : ℕ) → v < 1048576 → pte_at small_words 1 v ≡ (if v == 517 then 12295 else 0)
small_pte v c = ground arith

small_memory-IsTree : IsTree small_words 1
small_memory-IsTree = record {
  below = λ i c p. ground arith;
  apart = λ i j c d n p q. ground arith;
  leaf = λ v c p.
      let at = small_pte v c in
      let is : v ≡ 517 = ground (arith, rw at at p) in
      rw is (record { directory = refl; table = λ k d q. ground arith });
}

small_memory-IsHeld : (x : ℕ) → IsNeeded small_words 1 x → IsHeld small_memory x
unfolding get_bit
small_memory-IsHeld x need =
    let is : ((x ≡ 1) ⊎ ((x ≡ 2) ⊎ (x ≡ 3))) = elim need [
      | inl e ↦ inl e
      | inr (inl (i, c, q, e)) ↦ inr (inl (ground arith))
      | inr (inr (v, c, q, e)) ↦
          inr
            (inr (ground (arith, small_pte v c, rw (small_pte v c) at q, rw (small_pte v c) at e)))
    ] in
    elim is [
      | inl e ↦ rw e (record { fits = omega arith; used = refl; clean = (refl, refl) })
      | inr (inl e) ↦ rw e (record { fits = omega arith; used = refl; clean = (refl, refl) })
      | inr (inr e) ↦ rw e (record { fits = omega arith; used = refl; clean = (refl, refl) })
    ]

small_memory-counted : (f : ℕ) → count_names (pte_at small_words 1) f 1048576 ≤ small_area.ref f
small_memory-counted f =
    let change =
      count_names-change (λ v. 0) (pte_at small_words 1) f 1048576 517 (omega arith)
        (λ u d n. small_pte u d ∙ (rw n refl)) in
    let zero_before = count_names-zero (λ v. 0) f 1048576 (λ v c. refl) in
    ground (arith, change, zero_before)

pub small_memory-IsSpace : IsSpace 1 small_memory
unfolding get_bit
small_memory-IsSpace = record {
  area = small_area-IsArea;
  tree = small_memory-IsTree;
  open_pages = λ x f. ground arith;
  idle = λ x f. ground arith;
  held = small_memory-IsHeld;
  counted = small_memory-counted;
  bounded = λ f. ground arith;
}

page_remove-IsRemoved_example :
    (t : Memory) × (page_remove 1 2117632 small_memory ≡ some t) × IsRemoved 1 517 small_memory t
page_remove-IsRemoved_example = page_remove-IsRemoved 1 2117632 small_memory small_memory-IsSpace
