-- ===== src/BlockCache/Stale.antt =====
-- What a read that fails leaves in the cache.
use freak_os.Base.{
  ℕ, zero, suc, ◌+◌, ◌≤◌, ◌<◌, ◌≡◌, ◌∙◌, inl, inr, refl, Bool, true, false, not, List, ◌∷◌, none,
  some, arith, Bool-cases, ◌==◌,
}
use freak_os.BlockCache.{
  Slot, State, n_bcache, matches, find_slot, hit, load, bcache_rw, disk_read, set_slot,
}
use freak_os.BlockCache.Slots.{find_slot-some, find_slot-none}

module _ {A : Type 0} where
  find_slot-only :
      (test : Slot A → Bool) (slots : ℕ → Slot A) (i rounds from : ℕ)
      → from ≤ i
      → i < from + rounds
      → test (slots i) ≡ true
      → ((j : ℕ) → from ≤ j → j < from + rounds → (j == i) ≡ false → test (slots j) ≡ false)
      → find_slot test rounds from slots ≡ some i
  unfolding find_slot
  find_slot-only test slots i zero from lo hi here off = absurd (omega arith)
  find_slot-only test slots i (suc rounds) from lo hi here off = elim (Bool-cases (from == i)) [
    | inl e ↦ ground arith
    | inr n ↦
        let past : test (slots from) ≡ false = off from (omega arith) (omega arith) n in
        rw past (
          find_slot-only test slots i rounds (from + 1) (ground arith) (omega arith) here
            λ j l h. off j (omega arith) (omega arith))
  ]

  failed_load :
      (d : ℕ) (buffer : A) (k : ℕ) (write : Bool) (s : State A) (i : ℕ) (rest : List Bool)
      → s.disk.faults ≡ true ∷ rest
      → load d buffer k write s i ≡ (
        1,
        buffer,
        set_slot
            (record s { disk = record s.disk { faults = rest } })
            i
            (record (s.slots i) { occupied = true; secno = k; dev = d }),
      )
  unfolding load disk_read
  failed_load d buffer k write s i rest e = rw e refl

  hit-read :
      (junk : A) (s : State A) (i : ℕ)
      → ((hit junk false s i).0 ≡ 0) × ((hit junk false s i).1 ≡ (s.slots i).contents)
  unfolding hit
  hit-read junk s i = (refl, refl)

  -- A sector that is in no slot is read while a slot is free, and its request fails: the call reports
  -- it, but the slot is left as that sector's, so the next read of the sector succeeds and returns what
  -- the slot held before.
  pub bcache_rw-stale :
      (d : ℕ) (buffer junk : A) (k : ℕ) (s : State A) (i : ℕ) (rest : List Bool)
      → find_slot (matches d k) n_bcache 0 s.slots ≡ none
      → find_slot (λ x. not x.occupied) n_bcache 0 s.slots ≡ some i
      → s.disk.faults ≡ true ∷ rest
      → let (code, same, t) = bcache_rw d buffer k false s in
        let (code', got, u) = bcache_rw d junk k false t in
        (code ≡ 1) × (code' ≡ 0) × (got ≡ (s.slots i).contents)
  unfolding bcache_rw
  bcache_rw-stale d buffer junk k s i rest out free fault =
      let x : Slot A = record (s.slots i) { occupied = true; secno = k; dev = d } in
      let t : State A = set_slot (record s { disk = record s.disk { faults = rest } }) i x in
      let (lo, lt, f) = find_slot-some (λ x. not x.occupied) s.slots n_bcache 0 i free in
      let first : bcache_rw d buffer k false s ≡ (1, buffer, t) =
        rw (bcache_rw, out, free) (failed_load d buffer k false s i rest fault) in
      let found : find_slot (matches d k) n_bcache 0 t.slots ≡ some i =
        find_slot-only (matches d k) t.slots i n_bcache 0 (omega arith) (omega arith) (ground arith)
          λ j l h n. ground (arith, find_slot-none (matches d k) s.slots n_bcache 0 j out l h) in
      let (ok, got) = hit-read junk t i in
      let again : bcache_rw d junk k false t ≡ hit junk false t i = rw (bcache_rw, found) refl in
      rw first (refl, rw again ok, rw again (got ∙ ground arith))
