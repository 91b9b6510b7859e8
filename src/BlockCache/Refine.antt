-- ===== src/BlockCache/Refine.antt =====
-- The cache and the disks behind it stand for one flat disk.
use freak_os.Base.{ℕ, ◌<◌, ◌≡◌, inl, inr, true, false, ◌&&◌, arith, Bool-cases, update, ◌==◌}
use freak_os.BlockCache.{Slot, n_bcache, update_sector, matches, tick}

-- The flat disk `v` is what the slots say, and what the disks say of sectors in no slot. No sector is
-- in two slots, and an unchanged slot agrees with its disk.
pub record IsCache {A : Type 0} (slots : ℕ → Slot A) (sectors v : ℕ → ℕ → A) : Type 0 where
  pub unique :
      (i j d k : ℕ)
      → i < n_bcache
      → j < n_bcache
      → matches d k (slots i) ≡ true
      → matches d k (slots j) ≡ true
      → i ≡ j
  pub hits : (i d k : ℕ) → i < n_bcache → matches d k (slots i) ≡ true → (slots i).contents ≡ v d k
  pub misses :
      (d k : ℕ) → ((i : ℕ) → i < n_bcache → matches d k (slots i) ≡ false) → sectors d k ≡ v d k
  pub clean :
      (i d k : ℕ)
      → i < n_bcache
      → matches d k (slots i) ≡ true
      → (slots i).modified ≡ false
      → sectors d k ≡ v d k

-- What holds while the slot `i` is given to the sector `k` of `d`: that sector is in no other slot,
-- and the other slots and the disks know the rest of the flat disk.
pub record IsOpen {A : Type 0} (slots : ℕ → Slot A) (sectors v : ℕ → ℕ → A) (i d k : ℕ)
    : Type 0 where
  pub unique :
      (j j' d' k' : ℕ)
      → j < n_bcache
      → j' < n_bcache
      → (j == i) ≡ false
      → (j' == i) ≡ false
      → matches d' k' (slots j) ≡ true
      → matches d' k' (slots j') ≡ true
      → j ≡ j'
  pub absent : (j : ℕ) → j < n_bcache → (j == i) ≡ false → matches d k (slots j) ≡ false
  pub hits :
      (j d' k' : ℕ)
      → j < n_bcache
      → (j == i) ≡ false
      → matches d' k' (slots j) ≡ true
      → (slots j).contents ≡ v d' k'
  pub misses :
      (d' k' : ℕ)
      → (d' == d && k' == k) ≡ false
      → ((j : ℕ) → j < n_bcache → (j == i) ≡ false → matches d' k' (slots j) ≡ false)
      → sectors d' k' ≡ v d' k'
  pub clean :
      (j d' k' : ℕ)
      → j < n_bcache
      → (j == i) ≡ false
      → matches d' k' (slots j) ≡ true
      → (slots j).modified ≡ false
      → sectors d' k' ≡ v d' k'

module _ {A : Type 0} {slots : ℕ → Slot A} {sectors v : ℕ → ℕ → A} where
  -- The slot is filled with what the flat disk holds from now on.
  pub IsOpen-fill :
      (i d k : ℕ) (x : Slot A)
      → IsOpen slots sectors v i d k
      → i < n_bcache
      → matches d k x ≡ true
      → (x.modified ≡ false → sectors d k ≡ x.contents)
      → IsCache (λ j. tick (update slots i x j)) sectors (update_sector v d k x.contents)
  IsOpen-fill i d k x o lt m fresh = record {
    unique = λ j j' d' k' l l' h h'. elim (Bool-cases (j == i)) [
      | inl e ↦ elim (Bool-cases (j' == i)) [
        | inl e' ↦ ground arith
        | inr n' ↦ absurd (ground (arith, o.absent j'))
      ]
      | inr n ↦ elim (Bool-cases (j' == i)) [
        | inl e' ↦ absurd (ground (arith, o.absent j))
        | inr n' ↦ ground (arith, o.unique j j' d' k')
      ]
    ];
    hits = λ j d' k' l h. elim (Bool-cases (j == i)) [
      | inl e ↦ ground arith
      | inr n ↦ ground (arith, o.absent j, o.hits j d' k')
    ];
    misses = λ d' k' all.
        let away : (d' == d && k' == k) ≡ false = ground (arith, all i lt) in
        rw away (o.misses d' k' away (λ j l n. ground (arith, all j l)));
    clean = λ j d' k' l h c. elim (Bool-cases (j == i)) [
      | inl e ↦ ground arith
      | inr n ↦ ground (arith, o.absent j, o.clean j d' k')
    ];
  }
