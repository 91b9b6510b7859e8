-- ===== src/BlockCache/Tests.antt =====
-- Runs of the cache on a disk whose sectors hold numbers.
use freak_os.Base.{
  ℕ, ◌+◌, ◌≡◌, ◌⊎◌, refl, Bool, true, false, List, [], ◌∷◌, some, none, arith, not, update,
}
use freak_os.BlockCache.{
  Slot, State, n_bcache, matches, find_slot, hit, load, bcache_rw, disk_read, sync_all_bcache,
  disk_io_from, disk_io_bcache, update_sector,
}
use freak_os.BlockCache.Refine.{IsCache}
use freak_os.BlockCache.Ops.{Outcome, bcache_rw-Outcome, any_fault}
use freak_os.BlockCache.Sync.{sync_all_bcache-Synced}
use freak_os.BlockCache.Request.{Handled, disk_io_bcache-Handled, disk_io_bcache-read_back}
use freak_os.BlockCache.Stale.{bcache_rw-stale}

abbrev numbered : ℕ → ℕ → ℕ
numbered d k = d + k

-- After `initBlockCache`, with the outcomes of the coming requests.
abbrev started : List Bool → State ℕ
started faults = record {
  slots = λ i. record {
    contents = 0;
    dev = 0;
    secno = 0;
    time = 0;
    occupied = false;
    modified = false;
  };
  disk = record { sectors = numbered; faults = faults };
}

started-IsCache :
    (faults : List Bool) → IsCache (started faults).slots (started faults).disk.sectors numbered
started-IsCache faults = record {
  unique = λ i j d k l l' h h'. absurd cc;
  hits = λ i d k l h. absurd cc;
  misses = λ d k all. refl;
  clean = λ i d k l h u. absurd cc;
}

abbrev written : State ℕ
written = (bcache_rw 7 99 3 true (started [])).2

read_back : (bcache_rw 7 0 3 false written).1 ≡ 99
unfolding bcache_rw find_slot load hit disk_read
read_back = refl

bcache_rw-Outcome_example :
    Outcome 7 99 3 true
      (false ∷ true ∷ [])
      numbered
      (bcache_rw 7 99 3 true (started (false ∷ true ∷ [])))
bcache_rw-Outcome_example =
    bcache_rw-Outcome 7 99 3 true (started (false ∷ true ∷ [])) numbered
      (started-IsCache (false ∷ true ∷ []))

-- One slot holds a changed sector.
abbrev changed : ℕ → Slot ℕ
changed =
    update (started []).slots 2
      (record { contents = 99; dev = 7; secno = 3; time = 1; occupied = true; modified = true })

abbrev dirty : State ℕ
dirty = record (started []) { slots = changed }

abbrev flat : ℕ → ℕ → ℕ
flat = update_sector numbered 7 3 99

dirty-IsCache : IsCache dirty.slots dirty.disk.sectors flat
dirty-IsCache = record {
  unique = λ i j d k l l' h h'. ground arith;
  hits = λ i d k l h. ground arith;
  misses = λ d k all. ground (arith, all 2 (omega arith));
  clean = λ i d k l h u. ground arith;
}

sync_all_bcache-Synced_example :
    let (code, t) = sync_all_bcache dirty in
    (t.slots ≡ dirty.slots)
    × IsCache t.slots t.disk.sectors flat
    × (((code ≡ 0) × ((d k : ℕ) → t.disk.sectors d k ≡ flat d k))
        ⊎ ((code ≡ 1) × (any_fault [] ≡ true)))
sync_all_bcache-Synced_example = sync_all_bcache-Synced dirty flat dirty-IsCache

disk_io_bcache-Handled_example :
    Handled 2 0 7
      (λ i. i + 50)
      3
      true
      numbered
      []
      (disk_io_bcache 7 (λ i. i + 50) 3 2 true (started []))
disk_io_bcache-Handled_example =
    disk_io_bcache-Handled 7 (λ i. i + 50) 3 2 true (started []) numbered (started-IsCache [])

-- The two blocks are written, and read again.
abbrev kept : State ℕ
kept = (disk_io_bcache 7 (λ i. i + 50) 3 2 true (started [])).2

write_code : (disk_io_bcache 7 (λ i. i + 50) 3 2 true (started [])).0 ≡ 0
unfolding disk_io_bcache disk_io_from bcache_rw find_slot load hit disk_read
write_code = refl

read_code : (disk_io_bcache 7 (λ i. 0) 3 2 false kept).0 ≡ 0
unfolding disk_io_bcache disk_io_from bcache_rw find_slot load hit disk_read
read_code = refl

disk_io_bcache-read_back_example : (disk_io_bcache 7 (λ i. 0) 3 2 false kept).1 1 ≡ 51
disk_io_bcache-read_back_example =
    disk_io_bcache-read_back 7 (λ i. i + 50) (λ i. 0) 3 2 (started []) numbered (started-IsCache [])
      (omega arith) write_code read_code 1 (omega arith)

abbrev broken : State ℕ
broken = started (true ∷ [])

no_slot : find_slot (matches 7 3) n_bcache 0 broken.slots ≡ none
unfolding find_slot
no_slot = refl

first_slot : find_slot (λ x. not x.occupied) n_bcache 0 broken.slots ≡ some 0
unfolding find_slot
first_slot = refl

-- The sector holds 10, and 0 is read.
bcache_rw-stale_example :
    let (code, same, t) = bcache_rw 7 99 3 false broken in
    let (code', got, u) = bcache_rw 7 98 3 false t in (code ≡ 1) × (code' ≡ 0) × (got ≡ 0)
bcache_rw-stale_example = bcache_rw-stale 7 99 98 3 broken 0 [] no_slot first_slot refl
