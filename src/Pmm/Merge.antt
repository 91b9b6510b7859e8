-- ===== src/Pmm/Merge.antt =====
-- The second loop of `ff_free_pages`: joining a block to its neighbours changes no page's cover.
use freak_os.Base.{
  ℕ, ◌+◌, ◌≤◌, ◌^◌, ◌≡◌, refl, ◌∙◌, ◌≢◌, true, false, List, [], ◌∷◌, arith, has, erase, update,
  Distinct, ◌==◌, Bool-cases, inl, inr, ==_ne,
}
use freak_os.Base.Word.{add32}
use freak_os.Base.Bits.{get_bit}
use freak_os.Pmm.{Area, merge_step, merge_blocks}
use freak_os.Pmm.Mult.{
  mult, total, mult-erase, has-erase, erase-has_of_ne, mult-agree, total-erase, total-agree,
}
use freak_os.Pmm.Invariant.{IsPartition, not-has-erase}

pub head-not-has :
    {n : ℕ} {f : ℕ → ℕ} (a : ℕ) (xs : List ℕ) → IsPartition n f (a ∷ xs) → has a xs ≡ false
head-not-has a xs v = ground (arith, not-has-erase v a)

-- The blocks `b ∷ ys` with the sizes `g` cover what `a ∷ xs` with `f` do.
pub record Joined (n : ℕ) (f : ℕ → ℕ) (a : ℕ) (xs : List ℕ) (g : ℕ → ℕ) (b : ℕ) (ys : List ℕ)
    : Type 0 where
  pub blocks : IsPartition n g (b ∷ ys)
  pub same : (i : ℕ) → mult g (b ∷ ys) i ≡ mult f (a ∷ xs) i
  pub sum : total g (b ∷ ys) ≡ total f (a ∷ xs)

module _ {n : ℕ} {f : ℕ → ℕ} (a p : ℕ) (xs : List ℕ) (v : IsPartition n f (a ∷ xs))
    (h : has p xs ≡ true) (small : n ≤ 2 ^ 20) where
  -- The block `p` begins where `a` ends.
  join_next : a + f a ≡ p → Joined n f a xs (update f a (add32 (f a) (f p))) a (erase p xs)
  join_next e =
      let g : ℕ → ℕ = update f a (add32 (f a) (f p)) in
      let out = head-not-has a xs v in
      let bound = v.within p (ground arith) in
      let size : g a ≡ f a + f p = ground arith in
      let agree : (x : ℕ) → has x (erase p xs) ≡ true → g x ≡ f x =
        λ x k. ground (arith, has-erase p x xs) in
      let same : (i : ℕ) → mult g (a ∷ erase p xs) i ≡ mult f (a ∷ xs) i =
        λ i. ground (arith, size, mult-erase f p xs i, mult-agree f g (erase p xs) i agree) in
      record {
        blocks = record {
          single = λ i. ground (arith, same i, v.single i);
          positive =
              λ x k. ground (arith, v.positive x, v.positive a, has-erase p x xs, agree x, size);
          within = λ x k. ground (arith, v.within x, has-erase p x xs, agree x, size, bound);
        };
        same = same;
        sum = ground (arith, size, total-erase f p xs, total-agree f g (erase p xs) agree);
      }

  -- The block `a` begins where `p` ends.
  join_previous : p + f p ≡ a → Joined n f a xs (update f p (add32 (f p) (f a))) p (erase p xs)
  join_previous e =
      let g : ℕ → ℕ = update f p (add32 (f p) (f a)) in
      let out = head-not-has a xs v in
      let bound = v.within a (ground arith) in
      let gone : (has p (erase p xs) ≡ false) =
        ground (arith, not-has-erase v p, has-erase p p (a ∷ xs)) in
      let size : g p ≡ f p + f a = ground arith in
      let agree : (x : ℕ) → has x (erase p xs) ≡ true → g x ≡ f x = λ x k. ground arith in
      let same : (i : ℕ) → mult g (p ∷ erase p xs) i ≡ mult f (a ∷ xs) i =
        λ i. ground (arith, size, mult-erase f p xs i, mult-agree f g (erase p xs) i agree) in
      record {
        blocks = record {
          single = λ i. ground (arith, same i, v.single i);
          positive =
              λ x k. ground (arith, v.positive x, v.positive p, has-erase p x xs, agree x, size);
          within = λ x k. ground (arith, v.within x, has-erase p x xs, agree x, size, bound);
        };
        same = same;
        sum = ground (arith, size, total-erase f p xs, total-agree f g (erase p xs) agree);
      }

-- What holds of the block `base`, which is being freed, and the free list at each round.
pub record IsMerging (n base : ℕ) (s : Area) : Type 0 where
  pub small : n ≤ 2 ^ 20
  pub blocks : IsPartition n s.property (base ∷ s.free_list)
  pub headed : (x : ℕ) → has x (base ∷ s.free_list) ≡ true → get_bit (s.flags x) 1 ≡ 1

-- What a round, or all of them, made of `base` and `s`.
pub record Merged (n base : ℕ) (s : Area) (base' : ℕ) (t : Area) : Type 0 where
  pub joined : Joined n s.property base s.free_list t.property base' t.free_list
  pub headed : (x : ℕ) → has x (base' ∷ t.free_list) ≡ true → get_bit (t.flags x) 1 ≡ 1
  pub count : t.free_page_count ≡ s.free_page_count

module _ {n base : ℕ} {s : Area} (v : IsMerging n base s) (p : ℕ)
    (h : has p s.free_list ≡ true) where
  merge_step-Merged :
      let (base', t) = merge_step p base s in
      Merged n base s base' t
      × ((x : ℕ) → has x s.free_list ≡ true → x ≢ p → has x t.free_list ≡ true)
  unfolding merge_step
  merge_step-Merged = elim (Bool-cases (base + s.property base == p)) [
    | inl next ↦ rw next (
      record {
        joined = join_next base p s.free_list v.blocks h v.small (ground arith);
        headed = λ x k. ground (arith, gone, has-erase p x s.free_list, v.headed x);
        count = refl;
      },
      λ x k ne. erase-has_of_ne p x s.free_list k (==_ne x p ne),
    )
    | inr not_next ↦ rw not_next (elim (Bool-cases (p + s.property p == base)) [
      | inl previous ↦ rw previous (
        record {
          joined = join_previous base p s.free_list v.blocks h v.small (ground arith);
          headed = λ x k. ground (arith, out, has-erase p x s.free_list, v.headed x, v.headed p);
          count = refl;
        },
        λ x k ne. erase-has_of_ne p x s.free_list k (==_ne x p ne),
      )
      | inr apart ↦ rw apart (
        record {
          joined = record { blocks = v.blocks; same = λ i. refl; sum = refl };
          headed = v.headed;
          count = refl;
        },
        λ x k ne. k,
      )
    ])
  ]
    where
      out : has base s.free_list ≡ false
      out = head-not-has base s.free_list v.blocks

      gone : has p (base ∷ erase p s.free_list) ≡ false
      gone = ground (arith, not-has-erase v.blocks p, head-not-has base s.free_list v.blocks)

pub merge_blocks-Merged :
    {n : ℕ} (ps : List ℕ) (base : ℕ) (s : Area)
    → IsMerging n base s
    → Distinct ps
    → ((x : ℕ) → has x ps ≡ true → has x s.free_list ≡ true)
    → let (base', t) = merge_blocks ps base s in Merged n base s base' t
unfolding merge_blocks
merge_blocks-Merged [] base s v d sub = record {
  joined = record { blocks = v.blocks; same = λ i. refl; sum = refl };
  headed = v.headed;
  count = refl;
}
merge_blocks-Merged (p ∷ ps) base s v d sub =
    let (m, keep) = merge_step-Merged v p (sub p (ground arith)) in
    let base' = (merge_step p base s).0 in
    let t = (merge_step p base s).1 in
    let rest =
      merge_blocks-Merged ps base' t
        (record { small = v.small; blocks = m.joined.blocks; headed = m.headed }) d.1
        (λ x k. keep x (sub x (ground arith)) (ground arith)) in
    record {
      joined = record {
        blocks = rest.joined.blocks;
        same = λ i. rest.joined.same i ∙ m.joined.same i;
        sum = rest.joined.sum ∙ m.joined.sum;
      };
      headed = rest.headed;
      count = rest.count ∙ m.count;
    }
