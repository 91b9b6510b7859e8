-- ===== src/BlockCache/Faults.antt =====
-- The requests to the disks: a call of `bcache_rw` only uses up outcomes.
use freak_os.Base.{
  ℕ, ◌≡◌, inl, inr, refl, Bool, true, false, not, List, [], ◌∷◌, Bool-cases, Option-cases,
}
use freak_os.BlockCache.{
  Slot, State, n_bcache, matches, find_slot, oldest, hit, load, evict, bcache_rw, disk_read,
  disk_write,
}
use freak_os.BlockCache.Ops.{any_fault}

module _ {A : Type 0} where
  hit-faults :
      (buffer : A) (write : Bool) (s : State A) (i : ℕ)
      → (hit buffer write s i).2.disk.faults ≡ s.disk.faults
  unfolding hit
  hit-faults buffer true s i = refl
  hit-faults buffer false s i = refl

  load-faults :
      (d : ℕ) (buffer : A) (k : ℕ) (write : Bool) (slots : ℕ → Slot A) (sectors : ℕ → ℕ → A) (i : ℕ)
      (faults : List Bool)
      → any_fault faults ≡ false
      → any_fault
          (load d buffer k write
            (record { slots = slots; disk = record { sectors = sectors; faults = faults } })
            i).2.disk.faults
        ≡ false
  unfolding load disk_read
  load-faults d buffer k true slots sectors i [] h = refl
  load-faults d buffer k false slots sectors i [] h = refl
  load-faults d buffer k write slots sectors i (true ∷ rest) h = absurd cc
  load-faults d buffer k true slots sectors i (false ∷ rest) h = h
  load-faults d buffer k false slots sectors i (false ∷ rest) h = h

  evict-faults :
      (d : ℕ) (buffer : A) (k : ℕ) (write : Bool) (slots : ℕ → Slot A) (sectors : ℕ → ℕ → A) (i : ℕ)
      (faults : List Bool)
      → any_fault faults ≡ false
      → any_fault
          (evict d buffer k write
            (record { slots = slots; disk = record { sectors = sectors; faults = faults } })
            i).2.disk.faults
        ≡ false
  unfolding evict disk_write
  evict-faults d buffer k write slots sectors i [] h = elim (Bool-cases (slots i).modified) [
    | inl m ↦ rw m (load-faults d buffer k write _ _ i [] h)
    | inr m ↦ rw m (load-faults d buffer k write _ _ i [] h)
  ]
  evict-faults d buffer k write slots sectors i (true ∷ rest) h = absurd cc
  evict-faults d buffer k write slots sectors i (false ∷ rest) h =
      elim (Bool-cases (slots i).modified) [
        | inl m ↦ rw m (load-faults d buffer k write _ _ i rest h)
        | inr m ↦ rw m (load-faults d buffer k write _ _ i (false ∷ rest) h)
      ]

  pub bcache_rw-faults :
      (d : ℕ) (buffer : A) (k : ℕ) (write : Bool) (s : State A)
      → any_fault s.disk.faults ≡ false
      → any_fault (bcache_rw d buffer k write s).2.disk.faults ≡ false
  unfolding bcache_rw
  bcache_rw-faults d buffer k write s h =
      elim (Option-cases (find_slot (matches d k) n_bcache 0 s.slots)) [
        | inr (i, e) ↦ rw (bcache_rw, e, hit-faults buffer write s i) h
        | inl e ↦
            rw (bcache_rw, e)
              (elim (Option-cases (find_slot (λ x. not x.occupied) n_bcache 0 s.slots)) [
                | inr (i, e') ↦
                    rw e' (load-faults d buffer k write s.slots s.disk.sectors i s.disk.faults h)
                | inl e' ↦ rw e' (
                    evict-faults d buffer k write s.slots s.disk.sectors
                      (oldest n_bcache 0 0 s.slots) s.disk.faults h)
              ])
      ]
