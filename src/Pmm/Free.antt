-- ===== src/Pmm/Free.antt =====
-- `ff_free_pages` puts a range of pages into the free set, whatever neighbours it is joined to.
use freak_os.Base.{
  ℕ, zero, suc, ◌+◌, ◌≤◌, ◌<◌, ◌≡◌, ◌≢◌, refl, ap, ◌∙◌, ◌⊎◌, inl, inr, Bool, true, false, not, ◌||◌,
  List, [], ◌∷◌, Option, none, some, arith, has, update, Distinct, ◌==◌, if◌then◌else◌, ==_ne, leb,
  ltb, ◌&&◌,
}
use freak_os.Base.Word.{add32}
use freak_os.Base.Bits.{get_bit, get_bit-set_bit_one}
use freak_os.Pmm.{Area, set_head, add_front, release_pages, merge_blocks, free_pages}
use freak_os.Pmm.Mult.{covers, mult, total, mult-agree, total-agree}
use freak_os.Pmm.Invariant.{IsPartition, IsArea, total-le, not-has_of_free}
use freak_os.Pmm.Merge.{head-not-has, IsMerging, merge_blocks-Merged}

-- The page carries a flag that `ff_free_pages` refuses.
abbrev pub IsFlagged : Area → ℕ → Type 0
IsFlagged s i = (get_bit (s.flags i) 0 ≢ 0) ⊎ (get_bit (s.flags i) 1 ≢ 0)

abbrev pub InRange : ℕ → ℕ → ℕ → Type 0
InRange p n i = (p ≤ i) × (i < p + n)

-- What the first loop does: it stops at a page with a flag, or clears the range.
abbrev Released : ℕ → ℕ → Area → Option Area → Type 0
Released n p s none = (i : ℕ) × InRange p n i × IsFlagged s i
Released n p s (some t) =
    (t.property ≡ s.property)
    × (t.free_list ≡ s.free_list)
    × (t.free_page_count ≡ s.free_page_count)
    × ((x : ℕ) → t.flags x ≡ (if leb p x && ltb x (p + n) then 0 else s.flags x))

module _ (n p : ℕ) (s : Area) where
  abbrev first_released : Area
  first_released = record s { flags = update s.flags p 0; ref = update s.ref p 0 }

  release_step :
      (b c : Bool)
      → (get_bit (s.flags p) 0 == 0) ≡ b
      → (get_bit (s.flags p) 1 == 0) ≡ c
      → (o : Option Area) → Released n (p + 1) first_released o
      → Released (suc n) p s (if not b || not c then none else o)
  release_step false c eb ec o r = (p, (omega arith, omega arith), inl (ground arith))
  release_step true false eb ec o r = (p, (omega arith, omega arith), inr (ground arith))
  release_step true true eb ec none (i, (lo, hi), inl e) =
      (i, (omega arith, omega arith), inl (ground arith))
  release_step true true eb ec none (i, (lo, hi), inr e) =
      (i, (omega arith, omega arith), inr (ground arith))
  release_step true true eb ec (some t) (f, l, c, g) = (f, l, c, λ x. ground (arith, g x))

release_pages-Released : (n p : ℕ) (s : Area) → Released n p s (release_pages n p s)
unfolding release_pages
release_pages-Released zero p s = (refl, refl, refl, λ x. ground arith)
release_pages-Released (suc n) p s =
    release_step n p s _ _ refl refl (release_pages n (p + 1) (first_released n p s))
      (release_pages-Released n (p + 1) (first_released n p s))

-- The nodes of a free list are distinct.
tail-IsPartition :
    {n : ℕ} {f : ℕ → ℕ} (a : ℕ) (xs : List ℕ) → IsPartition n f (a ∷ xs) → IsPartition n f xs
tail-IsPartition a xs v = record {
  single = λ i. ground (arith, v.single i);
  positive = λ x k. v.positive x (ground arith);
  within = λ x k. v.within x (ground arith);
}

IsPartition-Distinct : {n : ℕ} {f : ℕ → ℕ} (xs : List ℕ) → IsPartition n f xs → Distinct xs
IsPartition-Distinct [] v = tt
IsPartition-Distinct (x ∷ xs) v =
    (head-not-has x xs v, IsPartition-Distinct xs (tail-IsPartition x xs v))

module _ {bound : ℕ} {s : Area} (base n : ℕ) (v : IsArea bound s) (pos : 0 < n)
    (fits : base + n ≤ bound)
    (used : (i : ℕ) → base ≤ i → i < base + n → mult s.property s.free_list i ≡ 0) where
  -- `none`, the panic, only where a page of the range is reserved or heads a free block; else the
  -- pages of the range, and no others, become free.
  abbrev pub Freed : Option Area → Type 0
  Freed none = (i : ℕ) × InRange base n i × IsFlagged s i
  Freed (some t) =
      IsArea bound t
      × ((i : ℕ) → mult t.property t.free_list i ≡ covers base n i + mult s.property s.free_list i)

  base_out : has base s.free_list ≡ false
  base_out = not-has_of_free v.blocks base (used base (omega arith) (omega arith))

  range_out : (x : ℕ) → has x s.free_list ≡ true → leb base x && ltb x (base + n) ≡ false
  range_out x h = ground (arith, used x, not-has_of_free v.blocks x)

  head_agree : (x : ℕ) → has x s.free_list ≡ true → update s.property base n x ≡ s.property x
  head_agree x h = ground (arith, base_out)

  -- With the freed pages as one more block the list is still a partition.
  head_blocks : IsPartition bound (update s.property base n) (base ∷ s.free_list)
  head_blocks = record {
    single = λ i. ground (
      arith,
      used i,
      v.blocks.single i,
      mult-agree s.property (update s.property base n) s.free_list i head_agree,
    );
    positive = λ x k. ground (arith, v.blocks.positive x);
    within = λ x k. ground (arith, v.blocks.within x);
  }

  module _ (t : Area) (r : Released n base s (some t)) where
    released-IsMerging : IsMerging bound base (set_head base n t)
    released-IsMerging = record {
      small = v.small;
      blocks = rw (r.0, r.1) head_blocks;
      headed = λ x k.
          let k' = rw r.1 at k in
          ground (
            arith,
            get_bit-set_bit_one (t.flags base),
            r.3 x,
            v.headed x,
            range_out x,
            k',
            base_out,
          );
    }

    size_agree : (x : ℕ) → has x s.free_list ≡ true → (set_head base n t).property x ≡ s.property x
    size_agree x h = ground (arith, base_out, ap (λ f. f x) r.0)

    head_total :
        total (set_head base n t).property (base ∷ t.free_list) ≡ n + total s.property s.free_list
    head_total =
        rw r.1 (
          ground
            (arith, total-agree s.property (set_head base n t).property s.free_list size_agree))

    head_mult :
        (i : ℕ)
        → mult (set_head base n t).property (base ∷ t.free_list) i
          ≡ covers base n i + mult s.property s.free_list i
    head_mult i = rw r.1 (
        ground (arith, mult-agree s.property (set_head base n t).property s.free_list i size_agree))

    released_Freed :
        let (base', u) = merge_blocks t.free_list base (set_head base n t) in
        Freed (
          some (record u {
            free_list = base' ∷ u.free_list;
            free_page_count = add32 u.free_page_count n;
          }))
    released_Freed =
        let m =
          merge_blocks-Merged t.free_list base (set_head base n t) released-IsMerging
            (rw r.1 (IsPartition-Distinct s.free_list v.blocks)) (λ x k. k) in
        (
          record {
            small = v.small;
            blocks = m.joined.blocks;
            headed = m.headed;
            counted = omega (
              arith,
              m.count,
              r.2,
              m.joined.sum,
              head_total,
              v.counted,
              v.small,
              total-le m.joined.blocks,
            );
          },
          λ i. m.joined.same i ∙ head_mult i,
        )

  abbrev released_pages : Option Area → Option Area
  released_pages none = none
  released_pages (some t) =
      let (base', u) = merge_blocks t.free_list base (set_head base n t) in
      some (add_front base' (record u { free_page_count = add32 u.free_page_count n }))

  released_pages-Freed : (o : Option Area) → Released n base s o → Freed (released_pages o)
  released_pages-Freed none r = r
  released_pages-Freed (some t) r = released_Freed t r

  -- On a valid free set, `n > 0` pages below the bound, none of them free, are given back: the call panics
  -- only where one of them is reserved or marked as a head; else just these pages join the free set, which
  -- stays valid.
  pub free_pages-Freed : Freed (free_pages base n s)
  unfolding free_pages
  free_pages-Freed =
      rw (==_ne n 0 (omega arith))
        (released_pages-Freed (release_pages n base s) (release_pages-Released n base s))
