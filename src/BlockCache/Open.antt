-- ===== src/BlockCache/Open.antt =====
-- How a slot becomes free for a sector: it holds the sector already, it was never used, or its
-- contents stand on the disk.
use freak_os.Base.{ℕ, ◌<◌, ◌≡◌, true, false, ◌&&◌, inl, inr, arith, Bool-cases, ◌==◌}
use freak_os.BlockCache.{Slot, n_bcache, update_sector, matches}
use freak_os.BlockCache.Refine.{IsCache, IsOpen}

module _ {A : Type 0} {slots : ℕ → Slot A} {sectors v : ℕ → ℕ → A} (c : IsCache slots sectors v)
    (i d k : ℕ) (lt : i < n_bcache) where
  pub IsOpen-hit : matches d k (slots i) ≡ true → IsOpen slots sectors v i d k
  IsOpen-hit m = record {
    unique = λ j j' d' k' l l' n n' h h'. c.unique j j' d' k' l l' h h';
    absent = λ j l n. elim (Bool-cases (matches d k (slots j))) [
      | inl e ↦ absurd (ground (arith, c.unique i j d k lt l m e))
      | inr e ↦ e
    ];
    hits = λ j d' k' l n h. c.hits j d' k' l h;
    misses = λ d' k' away all.
        c.misses d' k'
          λ j l. elim (Bool-cases (j == i)) [ inl e ↦ ground arith | inr n ↦ all j l n ];
    clean = λ j d' k' l n h u. c.clean j d' k' l h u;
  }

  module _ (none : (j : ℕ) → j < n_bcache → matches d k (slots j) ≡ false) where
    -- Every sector that the slot holds is on the disk.
    pub IsOpen-clean :
        ((d' k' : ℕ) → matches d' k' (slots i) ≡ true → sectors d' k' ≡ v d' k')
        → IsOpen slots sectors v i d k
    IsOpen-clean safe = record {
      unique = λ j j' d' k' l l' n n' h h'. c.unique j j' d' k' l l' h h';
      absent = λ j l n. none j l;
      hits = λ j d' k' l n h. c.hits j d' k' l h;
      misses = λ d' k' away all. elim (Bool-cases (matches d' k' (slots i))) [
        | inl here ↦ safe d' k' here
        | inr gone ↦
            c.misses d' k'
              λ j l. elim (Bool-cases (j == i)) [ inl e ↦ ground arith | inr n ↦ all j l n ]
      ];
      clean = λ j d' k' l n h u. c.clean j d' k' l h u;
    }

    -- The slot's contents have just been written to the disk.
    pub IsOpen-written :
        (e m : ℕ)
        → matches e m (slots i) ≡ true
        → IsOpen slots (update_sector sectors e m (slots i).contents) v i d k
    IsOpen-written e m held = record {
      unique = λ j j' d' k' l l' n n' h h'. c.unique j j' d' k' l l' h h';
      absent = λ j l n. none j l;
      hits = λ j d' k' l n h. c.hits j d' k' l h;
      misses = λ d' k' away all. elim (Bool-cases (d' == e && k' == m)) [
        | inl same ↦ ground (arith, c.hits i e m lt held)
        | inr other ↦ rw other (
            c.misses d' k'
              λ j l. elim (Bool-cases (j == i)) [ inl eq ↦ ground arith | inr n ↦ all j l n ])
      ];
      clean = λ j d' k' l n h u. elim (Bool-cases (d' == e && k' == m)) [
        | inl same ↦ absurd (ground (arith, c.unique i j e m lt l held))
        | inr other ↦ rw other (c.clean j d' k' l h u)
      ];
    }
