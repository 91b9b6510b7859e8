-- ===== src/BlockCache/Ops.antt =====
-- `bcache_rw` against the flat disk.
use freak_os.Base.{
  ℕ, ◌<◌, ◌≡◌, ◌⊎◌, ◌∙◌, sym, inl, inr, refl, Bool, true, false, not, ◌&&◌, List, [], ◌∷◌, arith,
  if◌then◌else◌, Bool-cases, Option-cases, update, ◌==◌,
}
use freak_os.BlockCache.{
  Slot, State, n_bcache, update_sector, matches, find_slot, oldest, set_slot, hit, load, evict,
  bcache_rw, disk_read, disk_write,
}
use freak_os.BlockCache.Slots.{find_slot-some, find_slot-none, oldest_lt}
use freak_os.BlockCache.Refine.{IsCache, IsOpen, IsOpen-fill}
use freak_os.BlockCache.Open.{IsOpen-hit, IsOpen-clean, IsOpen-written}

-- Whether a request that is still to come fails.
abbrev pub any_fault : List Bool → Bool
any_fault [] = false
any_fault (f ∷ fs) = if f then true else any_fault fs

module _ {A : Type 0} where
  pub IsCache-≡ :
      {slots : ℕ → Slot A} {sectors v w : ℕ → ℕ → A}
      → IsCache slots sectors v
      → ((d k : ℕ) → v d k ≡ w d k)
      → IsCache slots sectors w
  IsCache-≡ c same = record {
    unique = c.unique;
    hits = λ i d k l h. c.hits i d k l h ∙ same d k;
    misses = λ d k all. c.misses d k all ∙ same d k;
    clean = λ i d k l h u. c.clean i d k l h u ∙ same d k;
  }

  -- The flat disk after a call, and what the buffer holds then.
  abbrev pub Served : ℕ → A → ℕ → Bool → (ℕ → ℕ → A) → ℕ × A × State A → Type 0
  Served d buffer k write v (code, buffer', t) =
      IsCache t.slots t.disk.sectors (if write then update_sector v d k buffer else v)
      × (buffer' ≡ (if write then buffer else v d k))

  update_sector-same :
      (v : ℕ → ℕ → A) (d k : ℕ) (a : A) (d' k' : ℕ)
      → a ≡ v d k
      → update_sector v d k a d' k' ≡ v d' k'
  update_sector-same v d k a d' k' e = elim (Bool-cases (d' == d && k' == k)) [
    | inl same ↦ ground arith
    | inr other ↦ ground arith
  ]

  hit-code : (buffer : A) (write : Bool) (s : State A) (i : ℕ) → (hit buffer write s i).0 ≡ 0
  unfolding hit
  hit-code buffer true s i = refl
  hit-code buffer false s i = refl

  hit-Served :
      (d : ℕ) (buffer : A) (k : ℕ) (write : Bool) (s : State A) (v : ℕ → ℕ → A) (i : ℕ)
      → IsCache s.slots s.disk.sectors v
      → i < n_bcache
      → matches d k (s.slots i) ≡ true
      → Served d buffer k write v (hit buffer write s i)
  unfolding hit
  hit-Served d buffer k true s v i c lt m = (
    IsOpen-fill i d k (record (s.slots i) { contents = buffer; modified = true; time = 0 })
        (IsOpen-hit c i d k lt m) lt m (λ e. absurd cc),
    refl,
  )
  hit-Served d buffer k false s v i c lt m =
      let x : Slot A = record (s.slots i) { time = 0 } in
      (
        IsCache-≡
            (IsOpen-fill i d k x (IsOpen-hit c i d k lt m) lt m
              (λ e. c.clean i d k lt m e ∙ sym (c.hits i d k lt m)))
            (λ d' k'. update_sector-same v d k x.contents d' k' (c.hits i d k lt m)),
        c.hits i d k lt m,
      )

  abbrev pub Failed : ℕ → A → ℕ → List Bool → (ℕ → ℕ → A) → ℕ × A × State A → Type 0
  Failed d buffer k faults v (code, buffer', t) =
      (buffer' ≡ buffer)
      × (any_fault faults ≡ true)
      × (IsCache t.slots t.disk.sectors v
          ⊎ ((i : ℕ) × (i < n_bcache) × IsOpen t.slots t.disk.sectors v i d k))

  -- The call succeeds and has done its work, or a request has failed and it says so.
  abbrev pub Outcome : ℕ → A → ℕ → Bool → List Bool → (ℕ → ℕ → A) → ℕ × A × State A → Type 0
  Outcome d buffer k write faults v r =
      ((r.0 ≡ 0) × Served d buffer k write v r) ⊎ ((r.0 ≡ 1) × Failed d buffer k faults v r)

  IsOpen-set :
      {slots : ℕ → Slot A} {sectors v : ℕ → ℕ → A} {i d k : ℕ} (x : Slot A)
      → IsOpen slots sectors v i d k
      → IsOpen (update slots i x) sectors v i d k
  IsOpen-set {i} {d} {k} x o = record {
    unique = λ j j' d' k' l l' n n' h h'. ground (arith, o.unique j j' d' k');
    absent = λ j l n. ground (arith, o.absent j);
    hits = λ j d' k' l n h. ground (arith, o.hits j d' k');
    misses = λ d' k' away all. o.misses d' k' away λ j l n. ground (arith, all j);
    clean = λ j d' k' l n h u. ground (arith, o.clean j d' k');
  }

  load-Served :
      (d : ℕ) (buffer : A) (k : ℕ) (write : Bool) (slots : ℕ → Slot A) (sectors v : ℕ → ℕ → A)
      (i : ℕ)
      → i < n_bcache
      → IsOpen slots sectors v i d k
      → sectors d k ≡ v d k
      → (rest : List Bool)
      → let r =
          load d buffer k write
            (record { slots = slots; disk = record { sectors = sectors; faults = false ∷ rest } })
            i in
        (r.0 ≡ 0) × Served d buffer k write v r
  unfolding load disk_read
  load-Served d buffer k true slots sectors v i lt o here rest = (
    refl,
    (
      IsOpen-fill i d k
          (record (slots i) {
            occupied = true;
            secno = k;
            dev = d;
            contents = buffer;
            modified = true;
            time = 0;
          })
          o lt (ground arith) (λ e. absurd cc),
      refl,
    ),
  )
  load-Served d buffer k false slots sectors v i lt o here rest =
      let x : Slot A = record (slots i) {
        occupied = true;
        secno = k;
        dev = d;
        contents = sectors d k;
        modified = false;
        time = 0;
      } in
      (
        refl,
        (
          IsCache-≡ (IsOpen-fill i d k x o lt (ground arith) (λ e. refl))
              (λ d' k'. update_sector-same v d k x.contents d' k' here),
          here,
        ),
      )

  load-Outcome :
      (d : ℕ) (buffer : A) (k : ℕ) (write : Bool) (slots : ℕ → Slot A) (sectors v : ℕ → ℕ → A)
      (i : ℕ) (faults : List Bool)
      → i < n_bcache
      → IsOpen slots sectors v i d k
      → sectors d k ≡ v d k
      → Outcome d buffer k write faults v (
          load d buffer k write
            (record { slots = slots; disk = record { sectors = sectors; faults = faults } })
            i)
  unfolding load disk_read
  load-Outcome d buffer k write slots sectors v i [] lt o here =
      inl (load-Served d buffer k write slots sectors v i lt o here [])
  load-Outcome d buffer k write slots sectors v i (true ∷ rest) lt o here = inr (
    refl,
    (
      refl,
      refl,
      inr (i, lt, IsOpen-set (record (slots i) { occupied = true; secno = k; dev = d }) o),
    ),
  )
  load-Outcome d buffer k write slots sectors v i (false ∷ rest) lt o here =
      inl (load-Served d buffer k write slots sectors v i lt o here rest)

  -- A fault among the last outcomes is one among them all.
  Outcome-sooner :
      (d : ℕ) (buffer : A) (k : ℕ) (write : Bool) (v : ℕ → ℕ → A) (f : Bool) (faults : List Bool)
      (r : ℕ × A × State A)
      → Outcome d buffer k write faults v r
      → Outcome d buffer k write (f ∷ faults) v r
  Outcome-sooner d buffer k write v f faults r (inl ok) = inl ok
  Outcome-sooner d buffer k write v f faults r (inr (e, (same, fault, kept))) =
      inr (e, (same, ground arith, kept))

  module _ (d : ℕ) (buffer : A) (k : ℕ) (write : Bool) (slots : ℕ → Slot A) (sectors v : ℕ → ℕ → A)
      (i : ℕ) (c : IsCache slots sectors v) (lt : i < n_bcache)
      (none : (j : ℕ) → j < n_bcache → matches d k (slots j) ≡ false)
      (taken : (slots i).occupied ≡ true) where
    evict_written :
        (faults : List Bool) (y : Slot A)
        → let x = slots i in
          Outcome d buffer k write faults v (
            load d buffer k write
              (record {
                slots = update slots i y;
                disk = record {
                  sectors = update_sector sectors x.dev x.secno x.contents;
                  faults = faults;
                };
              })
              i)
    evict_written faults y =
        let x = slots i in
        let held : matches x.dev x.secno x ≡ true = ground arith in
        let away : (d == x.dev && k == x.secno) ≡ false = ground (arith, none i lt) in
        load-Outcome d buffer k write (update slots i y)
          (update_sector sectors x.dev x.secno x.contents) v i faults lt
          (IsOpen-set y (IsOpen-written c i d k lt none x.dev x.secno held))
          (rw away (c.misses d k none))

    evict-Outcome :
        (faults : List Bool)
        → Outcome d buffer k write faults v (
            evict d buffer k write
              (record { slots = slots; disk = record { sectors = sectors; faults = faults } })
              i)
    unfolding evict disk_write
    evict-Outcome faults = elim (Bool-cases (slots i).modified) [
      | inl m ↦ rw m (dirty faults)
      | inr m ↦
          let x = slots i in
          rw m (
            load-Outcome d buffer k write (update slots i (record x { time = 0; modified = false }))
              sectors v i faults lt
              (IsOpen-set (record x { time = 0; modified = false })
                (IsOpen-clean c i d k lt none λ d' k' h. c.clean i d' k' lt h m))
              (c.misses d k none))
    ]
      where
        dirty :
            (faults : List Bool)
            → let x = slots i in
              let s : State A = record {
                slots = slots;
                disk = record { sectors = sectors; faults = faults };
              } in
              let (written, disk) = disk_write s.disk x.dev x.secno x.contents in
              Outcome d buffer k write faults v (
                if written
                then load d buffer k write
                    (set_slot (record s { disk = disk }) i (record x { time = 0; modified = true }))
                    i
                else (1, buffer, record s { disk = disk }))
        dirty [] = evict_written [] (record (slots i) { time = 0; modified = true })
        dirty (false ∷ rest) =
            let x = slots i in
            let y : Slot A = record x { time = 0; modified = true } in
            let t : State A = record {
              slots = update slots i y;
              disk = record {
                sectors = update_sector sectors x.dev x.secno x.contents;
                faults = rest;
              };
            } in
            Outcome-sooner d buffer k write v false rest (load d buffer k write t i)
              (evict_written rest y)
        dirty (true ∷ rest) = inr (refl, (refl, refl, inl c))

  -- Where the cache stands for a flat disk, a call of `bcache_rw` either has code 0, and then the cache
  -- stands for the flat disk with the sector written, or unchanged where it is read, and the buffer holds that
  -- sector; or it has code 1, and then a request failed, the buffer is unchanged, and the cache stands for the
  -- flat disk with the exception of at most the one slot and sector concerned.
  pub bcache_rw-Outcome :
      (d : ℕ) (buffer : A) (k : ℕ) (write : Bool) (s : State A) (v : ℕ → ℕ → A)
      → IsCache s.slots s.disk.sectors v
      → Outcome d buffer k write s.disk.faults v (bcache_rw d buffer k write s)
  unfolding bcache_rw
  bcache_rw-Outcome d buffer k write s v c =
      elim (Option-cases (find_slot (matches d k) n_bcache 0 s.slots)) [
        | inr (i, e) ↦
            let (lo, lt, m) = find_slot-some (matches d k) s.slots n_bcache 0 i e in
            rw (bcache_rw, e)
              (inl (hit-code buffer write s i, hit-Served d buffer k write s v i c lt m))
        | inl e ↦
            let free : Slot A → Bool = λ x. not x.occupied in
            let absent = λ (j : ℕ) (l : j < n_bcache).
              find_slot-none (matches d k) s.slots n_bcache 0 j e (omega arith) (omega arith) in
            rw (bcache_rw, e)
              (elim (Option-cases (find_slot free n_bcache 0 s.slots)) [
                | inr (i, e') ↦
                    let (lo, lt, f) = find_slot-some free s.slots n_bcache 0 i e' in
                    let off : (s.slots i).occupied ≡ false = ground arith in
                    rw e' (
                      load-Outcome d buffer k write s.slots s.disk.sectors v i s.disk.faults lt
                        (IsOpen-clean c i d k lt absent λ d' k' h. absurd (ground arith))
                        (c.misses d k absent))
                | inl e' ↦
                    let i = oldest n_bcache 0 0 s.slots in
                    let lt : i < n_bcache =
                      oldest_lt n_bcache 0 0 s.slots n_bcache (omega arith) (omega arith) in
                    let f : not (s.slots i).occupied ≡ false =
                      find_slot-none free s.slots n_bcache 0 i e' (omega arith) (omega arith) in
                    rw e' (
                      evict-Outcome d buffer k write s.slots s.disk.sectors v i c lt absent
                        (ground arith) s.disk.faults)
              ])
      ]
