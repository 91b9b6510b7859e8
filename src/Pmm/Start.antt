-- ===== src/Pmm/Start.antt =====
-- `ff_free_area_init`, `ff_memmap_init` and `getFreeMem`.
use freak_os.Base.{
  ℕ, zero, suc, ◌+◌, ◌*◌, ◌≤◌, ◌<◌, ◌^◌, ◌≡◌, refl, ◌∙◌, ◌⊎◌, true, false, List, [], ◌∷◌, Option,
  none, some, arith, has, update, ==_ne, ◌==◌,
}
use freak_os.Base.Word.{add32}
use freak_os.Base.Bits.{get_bit-set_bit_one}
use freak_os.Pmm.{
  Area, clear_page, clear_pages, free_area_init, memmap_init, free_blocks, get_free_mem,
}
use freak_os.Pmm.Mult.{covers, mult, total, mult-agree, total-agree}
use freak_os.Pmm.Invariant.{IsPartition, IsArea, total-le, not-has_of_free}

pub free_area_init-IsArea : (n : ℕ) (s : Area) → n ≤ 2 ^ 20 → IsArea n (free_area_init s)
unfolding free_area_init
free_area_init-IsArea n s small = record {
  small = small;
  blocks = record { single = λ i. omega arith; positive = λ x k. cc; within = λ x k. cc };
  headed = λ x k. cc;
  counted = refl;
}

clear_page_frame :
    (p x : ℕ) (s : Area)
    → ((clear_page p s).free_list ≡ s.free_list)
      × ((clear_page p s).free_page_count ≡ s.free_page_count)
      × ((x == p) ≡ false
          → ((clear_page p s).property x ≡ s.property x) × ((clear_page p s).flags x ≡ s.flags x))
unfolding clear_page
clear_page_frame p x s = ground arith

clear_pages_frame :
    (n p x : ℕ) (s : Area)
    → ((clear_pages n p s).free_list ≡ s.free_list)
      × ((clear_pages n p s).free_page_count ≡ s.free_page_count)
      × ((x < p) ⊎ (p + n ≤ x)
          → ((clear_pages n p s).property x ≡ s.property x)
            × ((clear_pages n p s).flags x ≡ s.flags x))
unfolding clear_pages
clear_pages_frame zero p x s = (refl, refl, λ o. (refl, refl))
clear_pages_frame (suc n) p x s =
    let (l, c, f) = clear_pages_frame n (p + 1) x (clear_page p s) in
    let (l', c', f') = clear_page_frame p x s in
    (
      l ∙ l',
      c ∙ c',
      λ o.
          let far : (x < p + 1) ⊎ (p + 1 + n ≤ x) = ground arith in
          let away : (x == p) ≡ false = ground arith in
          ((f far).0 ∙ (f' away).0, (f far).1 ∙ (f' away).1),
    )

module _ {bound : ℕ} {s : Area} (base n : ℕ) (v : IsArea bound s) (pos : 0 < n)
    (fits : base + n ≤ bound)
    (used : (i : ℕ) → base ≤ i → i < base + n → mult s.property s.free_list i ≡ 0) where
  -- The pages of the range, and no others, become free.
  abbrev pub Added : Option Area → Type 0
  Added none = ⊥
  Added (some t) =
      IsArea bound t
      × ((i : ℕ) → mult t.property t.free_list i ≡ covers base n i + mult s.property s.free_list i)

  outside : (x : ℕ) → has x s.free_list ≡ true → (x < base) ⊎ (base + n ≤ x)
  outside x h = ground (arith, used x, not-has_of_free v.blocks x)

  -- On a valid free set, `n > 0` pages below the bound, none of them free, are made a free block: the call
  -- does not panic, just these pages join the free set, and it stays valid.
  pub memmap_init-Added : Added (memmap_init base n s)
  unfolding memmap_init
  memmap_init-Added =
      let t = clear_pages n base s in
      let f = λ (x : ℕ). (clear_pages_frame n base x s).2 in
      let (l, c, z) = clear_pages_frame n base 0 s in
      let g : ℕ → ℕ = update t.property base n in
      let agree : (x : ℕ) → has x s.free_list ≡ true → g x ≡ s.property x =
        λ x h. ground (arith, outside x h, (f x (outside x h)).0) in
      let same : (i : ℕ)
          → mult g (base ∷ s.free_list) i ≡ covers base n i + mult s.property s.free_list i =
        λ i. ground (arith, mult-agree s.property g s.free_list i agree) in
      let blocks : IsPartition bound g (base ∷ s.free_list) = record {
        single = λ i. ground (arith, same i, used i, v.blocks.single i);
        positive = λ x k. ground (arith, v.blocks.positive x, agree x);
        within = λ x k. ground (arith, v.blocks.within x, agree x);
      } in
      rw (==_ne n 0 (omega arith), l, c)
        (
          record {
            small = v.small;
            blocks = blocks;
            headed = λ x k.
                ground (arith, get_bit-set_bit_one (t.flags base), v.headed x, outside x, f x);
            counted = ground (
              arith,
              total-agree s.property g s.free_list agree,
              v.counted,
              v.small,
              total-le blocks,
            );
          },
          same,
        )

-- The sum never wraps, and equals the count that the allocator keeps.
free_blocks-total :
    (xs : List ℕ) (f : ℕ → ℕ) (acc : ℕ)
    → acc + total f xs < 2 ^ 32
    → free_blocks xs f acc ≡ acc + total f xs
unfolding free_blocks
free_blocks-total [] f acc h = omega arith
free_blocks-total (x ∷ xs) f acc h =
    omega (arith, free_blocks-total xs f (add32 acc (f x)) (omega arith))

-- On a valid free set below fewer than 2 ^ 20 pages, `getFreeMem` is 4096 times the number of free pages
-- that the allocator counts; none of its sums wraps.
pub get_free_mem_lem :
    {n : ℕ} (s : Area) → IsArea n s → n < 2 ^ 20 → get_free_mem s ≡ s.free_page_count * 4096
unfolding get_free_mem
get_free_mem_lem s v h = omega (
  arith,
  v.counted,
  total-le v.blocks,
  free_blocks-total s.free_list s.property 0 (omega (arith, total-le v.blocks)),
)
