-- ===== src/BlockCache/Request.antt =====
-- `diskIO_BCache` against the flat disk: requests of several blocks.
use freak_os.Base.{
  ℕ, zero, suc, ◌+◌, ◌≤◌, ◌<◌, ◌≡◌, ◌⊎◌, ◌∙◌, inl, inr, refl, Bool, true, false, ◌&&◌, List, arith,
  if◌then◌else◌, Bool-cases, update, ◌==◌, dec_lt, leb, ltb,
}
use freak_os.Base.Word.{add32, u32_mod}
use freak_os.BlockCache.{State, update_sector, bcache_rw, disk_io_from, disk_io_bcache}
use freak_os.BlockCache.Refine.{IsCache}
use freak_os.BlockCache.Ops.{any_fault, bcache_rw-Outcome}
use freak_os.BlockCache.Faults.{bcache_rw-faults}

module _ {A : Type 0} where
  -- The flat disk after the blocks from `i` on are written, one after the other.
  abbrev pub write_blocks : ℕ → ℕ → ℕ → (ℕ → A) → ℕ → (ℕ → ℕ → A) → ℕ → ℕ → A
  write_blocks zero i d buffer secno v = v
  write_blocks (suc rounds) i d buffer secno v =
      write_blocks rounds (i + 1) d buffer secno (update_sector v d (add32 secno i) (buffer i))

  -- What a request that succeeds has done.
  abbrev pub Transferred : ℕ → ℕ → ℕ → (ℕ → A) → ℕ → Bool → (ℕ → ℕ → A) → (ℕ → A) → State A → Type 0
  Transferred rounds i d buffer secno true v buffer' t =
      IsCache t.slots t.disk.sectors (write_blocks rounds i d buffer secno v)
      × ((j : ℕ) → buffer' j ≡ buffer j)
  Transferred rounds i d buffer secno false v buffer' t =
      IsCache t.slots t.disk.sectors v
      × ((j : ℕ)
          → buffer' j ≡ (if leb i j && ltb j (i + rounds) then v d (add32 secno j) else buffer j))

  update-same : (buffer : ℕ → A) (i : ℕ) (a : A) → a ≡ buffer i → update buffer i a ≡ buffer
  update-same buffer i a e = λ t j. at j t
    where
      at : (j : ℕ) → update buffer i a j ≡ buffer j
      at j = ground arith

  -- A request is carried out block by block, or it reports that a disk has failed.
  abbrev pub Handled :
      ℕ → ℕ → ℕ → (ℕ → A) → ℕ → Bool → (ℕ → ℕ → A) → List Bool → ℕ × (ℕ → A) × State A → Type 0
  Handled rounds i d buffer secno write v faults (code, buffer', t) =
      ((code ≡ 0) × Transferred rounds i d buffer secno write v buffer' t)
      ⊎ ((code ≡ 1) × (any_fault faults ≡ true))

  later_fault :
      (d : ℕ) (buffer : A) (k : ℕ) (write : Bool) (s : State A)
      → any_fault (bcache_rw d buffer k write s).2.disk.faults ≡ true
      → any_fault s.disk.faults ≡ true
  later_fault d buffer k write s f = elim (Bool-cases (any_fault s.disk.faults)) [
    | inl e ↦ e
    | inr e ↦ absurd (let g = bcache_rw-faults d buffer k write s e in cc)
  ]

  disk_io_from-Handled :
      (rounds i d : ℕ) (buffer : ℕ → A) (secno : ℕ) (write : Bool) (s : State A) (v : ℕ → ℕ → A)
      → IsCache s.slots s.disk.sectors v
      → Handled rounds i d buffer secno write v s.disk.faults
          (disk_io_from rounds i d buffer secno write s)
  unfolding disk_io_from
  disk_io_from-Handled zero i d buffer secno true s v c = inl (refl, (c, λ j. refl))
  disk_io_from-Handled zero i d buffer secno false s v c = inl (refl, (c, λ j. ground arith))
  disk_io_from-Handled (suc rounds) i d buffer secno true s v c =
      elim (bcache_rw-Outcome d (buffer i) (add32 secno i) true s v c) [
        | inl (ok, (served, same)) ↦
            let t = (bcache_rw d (buffer i) (add32 secno i) true s).2 in
            rw (ok, update-same buffer i (bcache_rw d (buffer i) (add32 secno i) true s).1 same)
              (elim (disk_io_from-Handled rounds (i + 1) d buffer secno true t
                (update_sector v d (add32 secno i) (buffer i)) served) [
                  | inl done ↦ inl done
                  | inr (bad, f) ↦ inr (bad, later_fault d (buffer i) (add32 secno i) true s f)
                ])
        | inr (bad, (same, f, kept)) ↦ rw bad (inr (refl, f))
      ]
  disk_io_from-Handled (suc rounds) i d buffer secno false s v c =
      elim (bcache_rw-Outcome d (buffer i) (add32 secno i) false s v c) [
        | inl (ok, (served, same)) ↦
            let (code, a, t) = bcache_rw d (buffer i) (add32 secno i) false s in
            rw ok
              (elim (disk_io_from-Handled rounds (i + 1) d (update buffer i a) secno false t v
                served) [
                  | inl (fine, (kept, all)) ↦ inl (
                    fine,
                    (
                      kept,
                      λ j. elim (Bool-cases (j == i)) [
                        | inl here ↦ ground (arith, all j)
                        | inr off ↦ ground (arith, all j)
                      ],
                    ),
                  )
                  | inr (bad, f) ↦ inr (bad, later_fault d (buffer i) (add32 secno i) false s f)
                ])
        | inr (bad, (same, f, kept)) ↦ rw bad (inr (refl, f))
      ]

  -- Later blocks of a write do not touch a sector below them.
  write_blocks-below :
      (rounds i j d : ℕ) (buffer : ℕ → A) (secno : ℕ) (v : ℕ → ℕ → A)
      → j < i
      → secno + i + rounds ≤ u32_mod
      → write_blocks rounds i d buffer secno v d (add32 secno j) ≡ v d (add32 secno j)
  write_blocks-below zero i j d buffer secno v lt fit = refl
  write_blocks-below (suc rounds) i j d buffer secno v lt fit =
      let v' = update_sector v d (add32 secno i) (buffer i) in
      let other : (d == d && add32 secno j == add32 secno i) ≡ false = ground arith in
      write_blocks-below rounds (i + 1) j d buffer secno v' (omega arith) (omega arith)
      ∙ ground arith

  write_blocks-at :
      (rounds i j d : ℕ) (buffer : ℕ → A) (secno : ℕ) (v : ℕ → ℕ → A)
      → i ≤ j
      → j < i + rounds
      → secno + i + rounds ≤ u32_mod
      → write_blocks rounds i d buffer secno v d (add32 secno j) ≡ buffer j
  write_blocks-at zero i j d buffer secno v lo hi fit = absurd (omega arith)
  write_blocks-at (suc rounds) i j d buffer secno v lo hi fit =
      let v' = update_sector v d (add32 secno i) (buffer i) in
      elim (dec_lt i j) [
        | yes p ↦
            write_blocks-at rounds (i + 1) j d buffer secno v' (omega arith) (omega arith)
              (omega arith)
        | no p ↦
            let e : j ≡ i = omega arith in
            rw e (
              write_blocks-below rounds (i + 1) i d buffer secno v' (omega arith) (omega arith)
              ∙ ground arith)
      ]

  -- Where the cache stands for a flat disk, a request of `nsecs` blocks either has code 0, and then its
  -- blocks are written to the flat disk in order, or they are read into the buffer and the flat disk is
  -- unchanged; or it has code 1, and a request to a disk failed.
  pub disk_io_bcache-Handled :
      (d : ℕ) (buffer : ℕ → A) (secno nsecs : ℕ) (write : Bool) (s : State A) (v : ℕ → ℕ → A)
      → IsCache s.slots s.disk.sectors v
      → Handled nsecs 0 d buffer secno write v s.disk.faults
          (disk_io_bcache d buffer secno nsecs write s)
  unfolding disk_io_bcache
  disk_io_bcache-Handled d buffer secno nsecs write s v c =
      disk_io_from-Handled nsecs 0 d buffer secno write s v c

  -- Where the cache stands for a flat disk and the numbers of the sectors do not wrap, a write of `nsecs`
  -- blocks and a read of the same sectors, both with code 0, give back the blocks that were written.
  pub disk_io_bcache-read_back :
      (d : ℕ) (buffer junk : ℕ → A) (secno nsecs : ℕ) (s : State A) (v : ℕ → ℕ → A)
      → IsCache s.slots s.disk.sectors v
      → secno + nsecs ≤ u32_mod
      → (disk_io_bcache d buffer secno nsecs true s).0 ≡ 0
      → (disk_io_bcache d junk secno nsecs false (disk_io_bcache d buffer secno nsecs true s).2).0
        ≡ 0
      → (j : ℕ) → j < nsecs
      → let t = (disk_io_bcache d buffer secno nsecs true s).2 in
        (disk_io_bcache d junk secno nsecs false t).1 j ≡ buffer j
  disk_io_bcache-read_back d buffer junk secno nsecs s v c fit ok ok' j lt =
      elim (disk_io_bcache-Handled d buffer secno nsecs true s v c) [
        | inl (e, (kept, same)) ↦
            let w = write_blocks nsecs 0 d buffer secno v in
            let t = (disk_io_bcache d buffer secno nsecs true s).2 in
            elim (disk_io_bcache-Handled d junk secno nsecs false t w kept) [
              | inl (e', (kept', read)) ↦
                  read j
                  ∙ ground (
                    arith,
                    write_blocks-at nsecs 0 j d buffer secno v (omega arith) (omega arith)
                        (omega arith),
                  )
              | inr (bad, f) ↦ absurd (omega arith)
            ]
        | inr (bad, f) ↦ absurd (omega arith)
      ]
