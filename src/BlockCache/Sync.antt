-- ===== src/BlockCache/Sync.antt =====
-- `sync_all_bcache` against the flat disk.
use freak_os.Base.{
  ℕ, zero, suc, ◌+◌, ◌<◌, ◌≡◌, ◌⊎◌, inl, inr, refl, Bool, true, false, ◌&&◌, List, [], ◌∷◌, arith,
  if◌then◌else◌, Bool-cases, Option-cases, ◌==◌, dec_lt,
}
use freak_os.BlockCache.{
  Slot, State, n_bcache, update_sector, matches, disk_write, sync_from, sync_all_bcache, find_slot,
}
use freak_os.BlockCache.Slots.{find_slot-some, find_slot-none}
use freak_os.BlockCache.Refine.{IsCache}
use freak_os.BlockCache.Ops.{any_fault}

module _ {A : Type 0} where
  written-same :
      {slots : ℕ → Slot A} {sectors v : ℕ → ℕ → A} (i : ℕ)
      → IsCache slots sectors v
      → i < n_bcache
      → (slots i).occupied ≡ true
      → (d k : ℕ) → sectors d k ≡ v d k
      → let x = slots i in update_sector sectors x.dev x.secno x.contents d k ≡ v d k
  written-same {slots} i c lt taken d k e =
      let x = slots i in
      let held : matches x.dev x.secno x ≡ true = ground arith in
      elim (Bool-cases (d == x.dev && k == x.secno)) [
        | inl here ↦ ground (arith, c.hits i x.dev x.secno lt held)
        | inr off ↦ ground arith
      ]

  written-IsCache :
      {slots : ℕ → Slot A} {sectors v : ℕ → ℕ → A} (i : ℕ)
      → IsCache slots sectors v
      → i < n_bcache
      → (slots i).occupied ≡ true
      → let x = slots i in IsCache slots (update_sector sectors x.dev x.secno x.contents) v
  written-IsCache i c lt taken =
      let same = written-same i c lt taken in
      record {
        unique = c.unique;
        hits = c.hits;
        misses = λ d k all. same d k (c.misses d k all);
        clean = λ d k j l h u. same k j (c.clean d k j l h u);
      }

  -- The slots from `i` on that were changed stand on the disk as well.
  abbrev pub Synced : State A → (ℕ → ℕ → A) → List Bool → ℕ × State A → Type 0
  Synced s v faults (code, t) =
      (t.slots ≡ s.slots)
      × IsCache t.slots t.disk.sectors v
      × (((code ≡ 0)
            × ((j d k : ℕ)
                → j < n_bcache
                → matches d k (t.slots j) ≡ true
                → t.disk.sectors d k ≡ v d k))
          ⊎ ((code ≡ 1) × (any_fault faults ≡ true)))

  -- The state after the contents of the slot are written.
  abbrev after_write : (ℕ → Slot A) → (ℕ → ℕ → A) → ℕ → List Bool → State A
  after_write slots sectors i rest =
      let x = slots i in
      record {
        slots = slots;
        disk = record { sectors = update_sector sectors x.dev x.secno x.contents; faults = rest };
      }

  -- A slot that was changed: its request, then the slots behind it.
  sync-step :
      (slots : ℕ → Slot A) (sectors v : ℕ → ℕ → A) (i rounds : ℕ)
      → IsCache slots sectors v
      → ((rest : List Bool)
          → let t = after_write slots sectors i rest in
            Synced t v rest (sync_from rounds (i + 1) t))
      → (faults : List Bool)
      → let x = slots i in
        let s : State A = record {
          slots = slots;
          disk = record { sectors = sectors; faults = faults };
        } in
        let (written, disk) = disk_write s.disk x.dev x.secno x.contents in
        let t : State A = record s { disk = disk } in
        Synced s v faults (if written then sync_from rounds (i + 1) t else (1, t))
  unfolding disk_write
  sync-step slots sectors v i rounds c next [] = next []
  sync-step slots sectors v i rounds c next (false ∷ rest) = next rest
  sync-step slots sectors v i rounds c next (true ∷ rest) = (refl, c, inr (refl, refl))

  sync_from-Synced :
      (rounds i : ℕ) (slots : ℕ → Slot A) (sectors v : ℕ → ℕ → A) (faults : List Bool)
      → i + rounds ≡ n_bcache
      → IsCache slots sectors v
      → ((j d k : ℕ) → j < i → matches d k (slots j) ≡ true → sectors d k ≡ v d k)
      → let s : State A = record {
        slots = slots;
        disk = record { sectors = sectors; faults = faults };
      } in
        Synced s v faults (sync_from rounds i s)
  unfolding sync_from
  sync_from-Synced zero i slots sectors v faults fit c past =
      (refl, c, inl (refl, λ j d k l h. past j d k (omega arith) h))
  sync_from-Synced (suc rounds) i slots sectors v faults fit c past =
      elim (Bool-cases ((slots i).occupied && (slots i).modified)) [
        | inl m ↦
            let x = slots i in
            let taken : x.occupied ≡ true = ground arith in
            rw m (
              sync-step slots sectors v i rounds c
                (λ rest.
                  sync_from-Synced rounds (i + 1) slots
                    (update_sector sectors x.dev x.secno x.contents) v rest (omega arith)
                    (written-IsCache i c (omega arith) taken)
                    λ j d k l h. elim (dec_lt j i) [
                      | yes p ↦ written-same i c (omega arith) taken d k (past j d k p h)
                      | no p ↦ let e : j ≡ i = omega arith in ground (arith, c.hits i d k)
                    ])
                faults)
        | inr m ↦ rw m (
            sync_from-Synced rounds (i + 1) slots sectors v faults (omega arith) c λ j d k l h.
              elim (dec_lt j i) [
                | yes p ↦ past j d k p h
                | no p ↦
                    let e : j ≡ i = omega arith in
                    c.clean i d k (omega arith) (ground arith) (ground arith)
              ])
      ]

  -- Where the cache stands for a flat disk it does so after `sync_all_bcache`, with the same slots. With code
  -- 0 every sector of the flat disk stands on its disk; else the code is 1 and a request failed.
  pub sync_all_bcache-Synced :
      (s : State A) (v : ℕ → ℕ → A)
      → IsCache s.slots s.disk.sectors v
      → let (code, t) = sync_all_bcache s in
        (t.slots ≡ s.slots)
        × IsCache t.slots t.disk.sectors v
        × (((code ≡ 0) × ((d k : ℕ) → t.disk.sectors d k ≡ v d k))
            ⊎ ((code ≡ 1) × (any_fault s.disk.faults ≡ true)))
  unfolding sync_all_bcache
  sync_all_bcache-Synced s v c =
      let (same, kept, end) =
        sync_from-Synced n_bcache 0 s.slots s.disk.sectors v s.disk.faults refl c
          (λ j d k l h. absurd (omega arith)) in
      (
        same,
        kept,
        elim end [
          | inl (ok, all) ↦ inl (
            ok,
            λ d k. elim (Option-cases (find_slot (matches d k) n_bcache 0 s.slots)) [
              | inr (j, e) ↦
                  let (lo, lt, m) = find_slot-some (matches d k) s.slots n_bcache 0 j e in
                  all j d k lt (rw same m)
              | inl e ↦ kept.misses d k (
                  rw same (λ j l.
                    find_slot-none (matches d k) s.slots n_bcache 0 j e (omega arith)
                      (omega arith)))
            ],
          )
          | inr bad ↦ inr bad
        ],
      )
