-- ===== src/Pmm/Single.antt =====
-- Single pages, as the page tables take them and give them back: what `ff_alloc_pages` and `ff_free_pages`
-- leave alone besides the free set.
use freak_os.Base.{
  ℕ, ◌+◌, ◌≤◌, ◌<◌, ◌≡◌, ◌⊎◌, ◌∙◌, refl, inl, inr, false, ◌&&◌, List, [], ◌∷◌, none, some, arith,
  update, ltb, ◌==◌, Bool-cases, if◌then◌else◌, Option-cases, ==_ne,
}
use freak_os.Base.Bits.{get_bit, get_bit-set_bit_one, get_bit-clear_bit_one}
use freak_os.Base.Word.{add32}
use freak_os.Pmm.{
  Area, take_block, split_block, first_fit, alloc_pages, free_pages, merge_step, merge_blocks,
  release_pages, set_head, add_front,
}
use freak_os.Pmm.Mult.{mult, covers-le-mult}
use freak_os.Pmm.Invariant.{IsArea}
use freak_os.Pmm.Alloc.{first_fit-some, Allocated, alloc_pages-Allocated}
use freak_os.Pmm.Free.{free_pages-Freed}

-- How often a page is in the free set: at most once.
abbrev pub free_count : Area → ℕ → ℕ
free_count s x = mult s.property s.free_list x

-- Neither reserved nor the head of a free block.
abbrev pub IsClean : Area → ℕ → Type 0
IsClean s x = (get_bit (s.flags x) 0 ≡ 0) × (get_bit (s.flags x) 1 ≡ 0)

-- Merging takes marks of heads away and changes no other flag.
record IsLighter (s t : Area) : Type 0 where
  refs : t.ref ≡ s.ref
  reserved : (x : ℕ) → get_bit (t.flags x) 0 ≡ get_bit (s.flags x) 0
  heads : (x : ℕ) → get_bit (s.flags x) 1 ≡ 0 → get_bit (t.flags x) 1 ≡ 0

merge_step-IsLighter : (p base : ℕ) (s : Area) → IsLighter s (merge_step p base s).1
unfolding merge_step
merge_step-IsLighter p base s =
    let at_p = get_bit-clear_bit_one (s.flags p) in
    let at_base = get_bit-clear_bit_one (s.flags base) in
    elim (Bool-cases (base + s.property base == p)) [
      | inl e ↦
          rw e (record { refs = refl; reserved = λ x. ground arith; heads = λ x h. ground arith })
      | inr e ↦ elim (Bool-cases (p + s.property p == base)) [
        | inl d ↦
            rw (e, d)
              (record { refs = refl; reserved = λ x. ground arith; heads = λ x h. ground arith })
        | inr d ↦ rw (e, d) (record { refs = refl; reserved = λ x. refl; heads = λ x h. h })
      ]
    ]

merge_blocks-IsLighter :
    (ps : List ℕ) (base : ℕ) (s : Area) → IsLighter s (merge_blocks ps base s).1
unfolding merge_blocks
merge_blocks-IsLighter [] base s = record { refs = refl; reserved = λ x. refl; heads = λ x h. h }
merge_blocks-IsLighter (p ∷ ps) base s =
    let first = merge_step-IsLighter p base s in
    let rest = merge_blocks-IsLighter ps (merge_step p base s).0 (merge_step p base s).1 in
    record {
      refs = rest.refs ∙ first.refs;
      reserved = λ x. rest.reserved x ∙ first.reserved x;
      heads = λ x h. rest.heads x (first.heads x h);
    }

-- The first loop of `ff_free_pages` on one page.
release_one :
    (page : ℕ) (s : Area)
    → IsClean s page
    → release_pages 1 page s
      ≡ some (record s { flags = update s.flags page 0; ref = update s.ref page 0 })
unfolding release_pages
release_one page s (a, b) = ground arith

get_bit_zero : get_bit 0 0 ≡ 0
unfolding get_bit
get_bit_zero = refl

-- A page given back: `t` is the allocator after it.
pub record IsReturned (bound page : ℕ) (s t : Area) : Type 0 where
  pub area : IsArea bound t
  pub freed : (x : ℕ) → free_count t x ≡ (if x == page then 1 else free_count s x)
  pub refs : (x : ℕ) → (x == page) ≡ false → t.ref x ≡ s.ref x
  pub ref : t.ref page ≡ 0
  pub open_page : get_bit (t.flags page) 0 ≡ 0
  pub reserved : (x : ℕ) → (x == page) ≡ false → get_bit (t.flags x) 0 ≡ get_bit (s.flags x) 0
  pub heads : (x : ℕ) → (x == page) ≡ false → get_bit (s.flags x) 1 ≡ 0 → get_bit (t.flags x) 1 ≡ 0

pub free_pages-IsReturned :
    (bound page : ℕ) (s : Area)
    → IsArea bound s
    → page < bound
    → free_count s page ≡ 0
    → IsClean s page
    → (t : Area) × (free_pages page 1 s ≡ some t) × IsReturned bound page s t
unfolding free_pages
free_pages-IsReturned bound page s v fits used clean =
    let c : Area = record s { flags = update s.flags page 0; ref = update s.ref page 0 } in
    let m = merge_blocks c.free_list page (set_head page 1 c) in
    let w = merge_blocks-IsLighter c.free_list page (set_head page 1 c) in
    let marked = get_bit-set_bit_one 0 in
    let one : (i : ℕ) → page ≤ i → i < page + 1 → free_count s i ≡ 0 =
      λ i a b. let e : i ≡ page = omega arith in rw e used in
    let freed = free_pages-Freed page 1 v (omega arith) (omega arith) one in
    let (area, mult) = rw (release_one page s clean) at freed in
    (
      add_front m.0 (record m.1 { free_page_count = add32 m.1.free_page_count 1 }),
      rw (release_one page s clean) refl,
      record {
        area = area;
        freed = λ x. ground (arith, mult x);
        refs = λ x h. rw w.refs (ground arith);
        ref = rw w.refs (ground arith);
        open_page = w.reserved page ∙ ground (arith, get_bit_zero);
        reserved = λ x h. w.reserved x ∙ ground arith;
        heads = λ x h k. w.heads x (ground arith);
      },
    )

-- A page taken: `t` is the allocator after it.
pub record IsTaken (bound page : ℕ) (s t : Area) : Type 0 where
  pub area : IsArea bound t
  pub fits : page < bound
  pub was_free : free_count s page ≡ 1
  pub taken : (x : ℕ) → free_count t x ≡ (if x == page then 0 else free_count s x)
  pub refs : t.ref ≡ s.ref
  pub reserved : (x : ℕ) → get_bit (t.flags x) 0 ≡ get_bit (s.flags x) 0
  pub head : get_bit (t.flags page) 1 ≡ 0
  pub heads : (x : ℕ) → free_count s x ≡ 0 → get_bit (t.flags x) 1 ≡ get_bit (s.flags x) 1

-- NULL, or the block that `first_fit` finds.
pub alloc_pages-cases :
    (n : ℕ) (s : Area)
    → 0 < n
    → (alloc_pages n s ≡ some (none, s))
      ⊎ ((page : ℕ) × (alloc_pages n s ≡ some (some page, take_block n page s))
          × (first_fit n s.property s.free_list ≡ some page))
unfolding alloc_pages
alloc_pages-cases n s pos =
    let nonzero = ==_ne n 0 (omega arith) in
    elim (Bool-cases (ltb s.free_page_count n)) [
      | inl few ↦ inl (rw (nonzero, few) refl)
      | inr many ↦ elim (Option-cases (first_fit n s.property s.free_list)) [
        | inl e ↦ inl (rw (nonzero, many, e) refl)
        | inr (page, e) ↦ inr (page, rw (nonzero, many, e) refl, e)
      ]
    ]

take_block-ref : (n page : ℕ) (s : Area) → (take_block n page s).ref ≡ s.ref
unfolding take_block split_block
take_block-ref n page s = elim (Bool-cases (ltb n (s.property page))) [
  | inl e ↦ rw e refl
  | inr e ↦ rw e refl
]

-- The flags change at the page, and at the head of the block that is split off.
pub take_block-flags :
    (n page : ℕ) (s : Area)
    → 0 < n
    → ((x : ℕ) → get_bit ((take_block n page s).flags x) 0 ≡ get_bit (s.flags x) 0)
      × ((x : ℕ)
          → (x == page) ≡ false
          → ((x == page + n) && ltb n (s.property page)) ≡ false
          → get_bit ((take_block n page s).flags x) 1 ≡ get_bit (s.flags x) 1)
unfolding take_block split_block
take_block-flags n page s pos =
    let set = get_bit-set_bit_one (s.flags (page + n)) in
    let clear = get_bit-clear_bit_one (s.flags page) in
    elim (Bool-cases (ltb n (s.property page))) [
      | inl e ↦ rw e (λ x. ground arith, λ x h k. ground arith)
      | inr e ↦ rw e (λ x. ground arith, λ x h k. ground arith)
    ]

pub alloc_pages-IsTaken :
    (bound : ℕ) (s : Area)
    → IsArea bound s
    → (alloc_pages 1 s ≡ some (none, s))
      ⊎ ((page : ℕ) × (t : Area) × (alloc_pages 1 s ≡ some (some page, t)) × IsTaken bound page s t)
unfolding alloc_pages
alloc_pages-IsTaken bound s v = elim (alloc_pages-cases 1 s (omega arith)) [
  | inl e ↦ inl e
  | inr (page, e, f) ↦
      let (h, le) = first_fit-some 1 s.property s.free_list page f in
      let a : Allocated 1 v (omega arith) (alloc_pages 1 s) =
        alloc_pages-Allocated 1 v (omega arith) in
      let (area, mult, head, size) = rw e at a in
      inr (
        page,
        take_block 1 page s,
        e,
        record {
          area = area;
          fits = ground (arith, v.blocks.within page h);
          was_free = ground (arith, mult page, v.blocks.single page);
          taken = λ x. ground (arith, mult x, v.blocks.single page);
          refs = take_block-ref 1 page s;
          reserved = (take_block-flags 1 page s (omega arith)).0;
          head = head;
          heads = λ x k.
              let covered = covers-le-mult s.property page s.free_list x h in
              (take_block-flags 1 page s (omega arith)).1 x (ground arith) (ground arith);
        },
      )
]

-- The counts of references mean nothing to the allocator.
pub IsArea-ref :
    (bound : ℕ) (s : Area) (f : ℕ → ℕ) → IsArea bound s → IsArea bound (record s { ref = f })
IsArea-ref bound s f v = record {
  small = v.small;
  blocks = v.blocks;
  headed = v.headed;
  counted = v.counted;
}
