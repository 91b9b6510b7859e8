-- ===== src/BlockCache.antt =====
-- The write-back cache of sectors: `kern/driver/bcache.c`.
--
-- A device is its pointer, a sector's contents are a value that the cache only moves. The disks are
-- not part of the source: they are a function from device and sector to contents, with the outcomes
-- of the coming requests as a list, `true` for one that fails. A request that fails changes neither
-- disk nor buffer; past the end of the list requests succeed. The semaphore is taken and given back on
-- every path and is left out, as is `devid`, which is only printed.
pub mod Slots
pub mod Refine
pub mod Open
pub mod Ops
pub mod Sync
pub mod Faults
pub mod Request
pub mod Stale
mod Tests
use freak_os.Base.{
  ℕ, zero, suc, ◌+◌, ◌%◌, ◌^◌, Bool, true, false, ◌&&◌, not, List, [], ◌∷◌, Option, none, some, ltb,
  ◌==◌, if◌then◌else◌, update,
}
use freak_os.Base.Word.{add32}

abbrev pub n_bcache : ℕ
n_bcache = 16

pub record Slot (A : Type 0) : Type 0 where
  pub contents : A
  pub dev : ℕ
  pub secno : ℕ
  pub time : ℕ
  pub occupied : Bool
  pub modified : Bool

pub record Disk (A : Type 0) : Type 0 where
  pub sectors : ℕ → ℕ → A
  pub faults : List Bool

-- The cache and the disks behind it.
pub record State (A : Type 0) : Type 0 where
  pub slots : ℕ → Slot A
  pub disk : Disk A

-- Whether the coming request fails, and what is left of the outcomes.
abbrev pub next_fault : List Bool → Bool × List Bool
next_fault [] = (false, [])
next_fault (f ∷ fs) = (f, fs)

module _ {A : Type 0} where
  abbrev pub update_sector : (ℕ → ℕ → A) → ℕ → ℕ → A → ℕ → ℕ → A
  update_sector v d k a d' k' = if d' == d && k' == k then a else v d' k'

  -- `disk_io_direct_oneblock`; `none` is the code 1.
  pub disk_read : Disk A → ℕ → ℕ → Option A × Disk A
  disk_read disk d k =
      let (fails, rest) = next_fault disk.faults in
      let disk' : Disk A = record disk { faults = rest } in
      if fails then (none, disk') else (some (disk.sectors d k), disk')

  pub disk_write : Disk A → ℕ → ℕ → A → Bool × Disk A
  disk_write disk d k a =
      let (fails, rest) = next_fault disk.faults in
      if fails
      then (false, record disk { faults = rest })
      else (true, record { sectors = update_sector disk.sectors d k a; faults = rest })

  abbrev pub matches : ℕ → ℕ → Slot A → Bool
  matches d k x = x.occupied && (x.dev == d) && (x.secno == k)

  -- The first slot from `i` on, in so many rounds, that passes the test.
  pub find_slot : (Slot A → Bool) → ℕ → ℕ → (ℕ → Slot A) → Option ℕ
  find_slot test zero i slots = none
  find_slot test (suc rounds) i slots =
      if test (slots i) then some i else find_slot test rounds (i + 1) slots

  -- The slot with the greatest time, the first of these.
  pub oldest : ℕ → ℕ → ℕ → (ℕ → Slot A) → ℕ
  oldest zero i max slots = max
  oldest (suc rounds) i max slots =
      oldest rounds (i + 1) (if ltb (slots max).time (slots i).time then i else max) slots

  -- The label `update_time`.
  abbrev pub tick : Slot A → Slot A
  tick x = if x.occupied then record x { time = (x.time + 1) % 2 ^ 32 } else x

  abbrev pub set_slot : State A → ℕ → Slot A → State A
  set_slot s i x = record s { slots = update s.slots i x }

  -- The end of a call that succeeds: the slot as it is now, and every clock set forward.
  abbrev pub finish : A → State A → ℕ → Slot A → ℕ × A × State A
  finish buffer s i x = (0, buffer, record s { slots = λ j. tick (update s.slots i x j) })

  -- The transfer between a slot that holds the sector and the buffer.
  pub hit : A → Bool → State A → ℕ → ℕ × A × State A
  hit buffer write s i =
      let x = s.slots i in
      if write
      then finish buffer s i (record x { contents = buffer; modified = true; time = 0 })
      else finish x.contents s i (record x { time = 0 })

  -- The sector is read into the slot `i`, whose owner is set before the request is made.
  pub load : ℕ → A → ℕ → Bool → State A → ℕ → ℕ × A × State A
  load d buffer k write s i =
      let x : Slot A = record (s.slots i) { occupied = true; secno = k; dev = d } in
      let (got, disk) = disk_read s.disk d k in
      let t : State A = record s { disk = disk } in
      elim got [
        | none ↦ (1, buffer, set_slot t i x)
        | some a ↦
            if write
            then finish buffer t i (record x { contents = buffer; modified = true; time = 0 })
            else finish a t i (record x { contents = a; modified = false; time = 0 })
      ]

  -- All slots are taken: the contents of the one with the greatest time are written back, if they
  -- were changed, and it is used.
  pub evict : ℕ → A → ℕ → Bool → State A → ℕ → ℕ × A × State A
  evict d buffer k write s i =
      let x = s.slots i in
      let (written, disk) = disk_write s.disk x.dev x.secno x.contents in
      let aged : State A → State A = λ t. set_slot t i (record x { time = 0 }) in
      if x.modified
      then (if written
          then load d buffer k write (aged (record s { disk = disk })) i
          else (1, buffer, record s { disk = disk }))
      else load d buffer k write (aged s) i

  -- The result code, the buffer and the state after `bcache_rw`.
  pub bcache_rw : ℕ → A → ℕ → Bool → State A → ℕ × A × State A
  bcache_rw d buffer k write s = elim (find_slot (matches d k) n_bcache 0 s.slots) [
    | some i ↦ hit buffer write s i
    | none ↦ elim (find_slot (λ x. not x.occupied) n_bcache 0 s.slots) [
      | some i ↦ load d buffer k write s i
      | none ↦ evict d buffer k write s (oldest n_bcache 0 0 s.slots)
    ]
  ]

  -- The loop of `diskIO_BCache` from the block `i` of the request on. The request's buffer is a
  -- function from the number of a block to its contents.
  pub disk_io_from : ℕ → ℕ → ℕ → (ℕ → A) → ℕ → Bool → State A → ℕ × (ℕ → A) × State A
  disk_io_from zero i d buffer secno write s = (0, buffer, s)
  disk_io_from (suc rounds) i d buffer secno write s =
      let (code, a, t) = bcache_rw d (buffer i) (add32 secno i) write s in
      let after = disk_io_from rounds (i + 1) d (update buffer i a) secno write t in
      if code == 0 then after else (1, update buffer i a, t)

  -- The code, the buffer and the state after a request for `nsecs` blocks from `secno` on.
  pub disk_io_bcache : ℕ → (ℕ → A) → ℕ → ℕ → Bool → State A → ℕ × (ℕ → A) × State A
  disk_io_bcache d buffer secno nsecs write s = disk_io_from nsecs 0 d buffer secno write s

  -- The loop of `sync_all_bcache` over the slots from `i` on.
  pub sync_from : ℕ → ℕ → State A → ℕ × State A
  sync_from zero i s = (0, s)
  sync_from (suc rounds) i s =
      let x = s.slots i in
      let (written, disk) = disk_write s.disk x.dev x.secno x.contents in
      let t : State A = record s { disk = disk } in
      let after = sync_from rounds (i + 1) t in
      let skipped = sync_from rounds (i + 1) s in
      if x.occupied && x.modified then (if written then after else (1, t)) else skipped

  pub sync_all_bcache : State A → ℕ × State A
  sync_all_bcache s = sync_from n_bcache 0 s
