-- ===== src/Pmm/Alloc.antt =====
-- `ff_alloc_pages` takes a range of pages out of the free set.
use freak_os.Base.{
  ℕ, ◌+◌, ◌-◌, ◌≤◌, ◌<◌, ◌≡◌, refl, true, false, ◌||◌, List, [], ◌∷◌, Option, none, some, arith,
  has, erase, update, ltb, ==_ne, lt→ltb, ◌==◌, Bool-cases, inl, inr,
}
use freak_os.Base.Bits.{get_bit, get_bit-set_bit_one, get_bit-clear_bit_one}
use freak_os.Pmm.{Area, insert_after, first_fit, take_block, alloc_pages}
use freak_os.Pmm.Mult.{
  covers, mult, total, mult-erase, has-erase, insert_after-has, mult-insert_after, mult-agree,
  total-erase, total-insert_after, total-agree,
}
use freak_os.Pmm.Invariant.{IsPartition, IsArea, total-le, not-has-erase, not-has_of_covers}

module _ (n : ℕ) (f : ℕ → ℕ) where
  pub first_fit-some :
      (xs : List ℕ) (p : ℕ) → first_fit n f xs ≡ some p → (has p xs ≡ true) × (n ≤ f p)
  unfolding first_fit
  first_fit-some [] p h = ground arith
  first_fit-some (x ∷ xs) p h = ground (arith, first_fit-some xs p)

  first_fit-none : (xs : List ℕ) → first_fit n f xs ≡ none → (x : ℕ) → has x xs ≡ true → f x < n
  unfolding first_fit
  first_fit-none [] h x e = ground arith
  first_fit-none (y ∷ ys) h x e = ground (arith, first_fit-none ys (ground arith) x)

has-erase-insert_after :
    (a b x : ℕ) (xs : List ℕ)
    → (a == b) ≡ false
    → has x (erase a (insert_after a b xs)) ≡ true
    → ((x == b) || has x (erase a xs)) ≡ true
has-erase-insert_after a b x [] ne h = ground arith
has-erase-insert_after a b x (y ∷ ys) ne h = ground (arith, has-erase-insert_after a b x ys)

-- The free list `ys` with the sizes `g` is `xs` with `f` less the pages of the block of `n` at `page`.
abbrev Taken : ℕ → ℕ → ℕ → (ℕ → ℕ) → List ℕ → (ℕ → ℕ) → List ℕ → Type 0
Taken bound n page f xs g ys =
    IsPartition bound g ys
    × ((i : ℕ) → mult f xs i ≡ covers page n i + mult g ys i)
    × (total f xs ≡ n + total g ys)

module _ (bound n page : ℕ) (f : ℕ → ℕ) (xs : List ℕ) (v : IsPartition bound f xs)
    (h : has page xs ≡ true) (pos : 0 < n) where
  -- The block is used up.
  take_whole : f page ≡ n → Taken bound n page f xs (update f page n) (erase page xs)
  take_whole e =
      let same = λ (i : ℕ). mult-erase f page xs i h in
      let out = not-has-erase v page h in
      let g : ℕ → ℕ = update f page n in
      let agree : (x : ℕ) → has x (erase page xs) ≡ true → g x ≡ f x = λ x k. ground arith in
      (
        record {
          single = λ i. ground (arith, same i, v.single i, mult-agree f g (erase page xs) i agree);
          positive = λ x k. ground (arith, v.positive x (has-erase page x xs k));
          within = λ x k. ground (arith, v.within x (has-erase page x xs k));
        },
        λ i. ground (arith, same i, mult-agree f g (erase page xs) i agree),
        ground (arith, total-erase f page xs h, total-agree f g (erase page xs) agree),
      )

  -- The tail of the block goes back to the list.
  take_part :
      n < f page
      → Taken bound n page f xs
          (update (update f (page + n) (f page - n)) page n)
          (erase page (insert_after page (page + n) xs))
  take_part lt =
      let q = page + n in
      let mid : ℕ → ℕ = update f q (f page - n) in
      let g : ℕ → ℕ = update mid page n in
      let ys = insert_after page q xs in
      let new = not-has_of_covers v page q h (omega arith) (omega arith) in
      let old : (x : ℕ) → has x xs ≡ true → mid x ≡ f x = λ x k. ground arith in
      let gone = not-has-erase v page h in
      let origin : (x : ℕ)
          → has x (erase page ys) ≡ true
          → ((x == q) || has x (erase page xs)) ≡ true =
        λ x k. has-erase-insert_after page q x xs (ground arith) k in
      let agree : (x : ℕ) → has x (erase page ys) ≡ true → g x ≡ mid x =
        λ x k. ground (arith, origin x) in
      let same : (i : ℕ) → mult f xs i ≡ covers page n i + mult g (erase page ys) i = λ i. ground (
        arith,
        mult-erase mid page ys i (insert_after-has page q page xs h),
        mult-insert_after mid page q xs i h,
        mult-agree f mid xs i old,
        mult-agree mid g (erase page ys) i agree,
      ) in
      (
        record {
          single = λ i. ground (arith, same i, v.single i);
          positive = λ x k. ground (arith, origin x, has-erase page x xs, v.positive x);
          within =
              λ x k. ground (arith, origin x, has-erase page x xs, v.within page h, v.within x);
        },
        same,
        ground (
          arith,
          total-erase mid page ys (insert_after-has page q page xs h),
          total-insert_after mid page q xs h,
          total-agree f mid xs old,
          total-agree mid g (erase page ys) agree,
        ),
      )

module _ {bound : ℕ} {s : Area} (n : ℕ) (v : IsArea bound s) (pos : 0 < n) where
  -- What `take_block` leaves, when it is given a block that is large enough.
  abbrev pub TakenFrom : ℕ → Area → Type 0
  TakenFrom page t =
      IsArea bound t
      × ((i : ℕ) → mult s.property s.free_list i ≡ covers page n i + mult t.property t.free_list i)
      × (get_bit (t.flags page) 1 ≡ 0)
      × (t.property page ≡ n)

  take_block_whole :
      (page : ℕ)
      → has page s.free_list ≡ true
      → s.property page ≡ n
      → TakenFrom page (take_block n page s)
  unfolding take_block
  take_block_whole page h e =
      let (part, same, sum) = take_whole bound n page s.property s.free_list v.blocks h pos e in
      let out = not-has-erase v.blocks page h in
      let test : ltb n (s.property page) ≡ false = ground arith in
      rw test (
        record {
          small = v.small;
          blocks = part;
          headed = λ x k. ground (arith, has-erase page x s.free_list, v.headed x);
          counted = omega (arith, v.counted, total-le v.blocks, v.small);
        },
        same,
        ground (arith, get_bit-clear_bit_one (s.flags page)),
        ground arith,
      )

  take_block_part :
      (page : ℕ)
      → has page s.free_list ≡ true
      → n < s.property page
      → TakenFrom page (take_block n page s)
  unfolding take_block
  take_block_part page h lt =
      let (part, same, sum) = take_part bound n page s.property s.free_list v.blocks h pos lt in
      let q = page + n in
      let out = not-has-erase v.blocks page h in
      rw (lt→ltb n (s.property page) lt) (
        record {
          small = v.small;
          blocks = part;
          headed = λ x k. ground (
            arith,
            has-erase-insert_after page q x s.free_list,
            has-erase page x s.free_list,
            v.headed x,
            get_bit-set_bit_one (s.flags q),
          );
          counted = omega (arith, v.counted, total-le v.blocks, v.small);
        },
        same,
        ground (arith, get_bit-clear_bit_one (s.flags page)),
        ground arith,
      )

  -- What `ff_alloc_pages` gives: `none` only where no free block holds `n` pages, and then nothing
  -- changes; else a range of `n` free pages, which leaves the free set and nothing else does.
  abbrev pub Allocated : Option (Option ℕ × Area) → Type 0
  Allocated none = ⊥
  Allocated (some (none, t)) = (t ≡ s) × ((x : ℕ) → has x s.free_list ≡ true → s.property x < n)
  Allocated (some (some page, t)) = TakenFrom page t

  take_block-TakenFrom :
      (page : ℕ)
      → has page s.free_list ≡ true
      → n ≤ s.property page
      → TakenFrom page (take_block n page s)
  take_block-TakenFrom page h le = elim (Bool-cases (ltb n (s.property page))) [
    | inl e ↦ take_block_part page h (ground arith)
    | inr e ↦ take_block_whole page h (ground arith)
  ]

  abbrev searched : Option ℕ → Option (Option ℕ × Area)
  searched none = some (none, s)
  searched (some page) = some (some page, take_block n page s)

  search_result : (o : Option ℕ) → first_fit n s.property s.free_list ≡ o → Allocated (searched o)
  search_result none e = (refl, first_fit-none n s.property s.free_list e)
  search_result (some page) e =
      let (h, le) = first_fit-some n s.property s.free_list page e in take_block-TakenFrom page h le

  -- On a valid free set, a request for `n > 0` pages never panics. It gives NULL only where no free block
  -- holds `n` pages, and then nothing changes. Else it gives a range of `n` pages that were free: just
  -- these leave the free set, the set stays valid, and the first of them carries no head's mark and says
  -- that it has `n` pages.
  pub alloc_pages-Allocated : Allocated (alloc_pages n s)
  unfolding alloc_pages
  alloc_pages-Allocated =
      rw (==_ne n 0 (omega arith)) (elim (Bool-cases (ltb s.free_page_count n)) [
        | inl few ↦
            rw few (refl, λ x k. ground (arith, v.counted, total-erase s.property x s.free_list k))
        | inr many ↦ rw many (search_result (first_fit n s.property s.free_list) refl)
      ])
