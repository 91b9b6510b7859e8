-- ===== src/Paging/Replace.antt =====
-- What `page_insert` does with the references before it writes the entry.
use freak_os.Base.{
  ℕ, ◌+◌, ◌*◌, ◌/◌, ◌%◌, ◌<◌, ◌^◌, ◌≡◌, ◌⊎◌, inl, inr, refl, ap, true, false, arith, ◌==◌,
  if◌then◌else◌, Bool-cases, some,
}
use freak_os.Pmm.Single.{IsArea-ref}
use freak_os.Paging.{
  Memory, is_present, frame_of, is_frame, page_ref_inc, page_ref_dec, drop_ref, pte_remove_page,
  replace, new_pte, set_word,
}
use freak_os.Paging.Entry.{frame_of-new_pte, is_present-new_pte}
use freak_os.Paging.Tree.{pte_at, IsOutside, write}
use freak_os.Paging.Count.{names, names-le-count_names}
use freak_os.Paging.Space.{IsHeld, IsSpace}
use freak_os.Paging.Drop.{IsSound, IsDropped, drop_ref-IsDropped}
use freak_os.Paging.Change.{IsShifted}

-- The entry of the virtual page is the word that its table holds.
pub pte_at-here :
    (w : ℕ → ℕ → ℕ) (pgdir i j : ℕ)
    → j < 1024
    → is_present (w pgdir i) ≡ true
    → pte_at w pgdir (i * 1024 + j) ≡ w (frame_of (w pgdir i)) j
pte_at-here w pgdir i j b p =
    let k : (i * 1024 + j) / 1024 ≡ i = omega arith in
    let l : (i * 1024 + j) % 1024 ≡ j = omega arith in rw (k, l, p) refl

-- `page` can be mapped: it is in use, but neither the directory nor a table.
pub record IsPage (pgdir page : ℕ) (m : Memory) : Type 0 where
  pub held : IsHeld m page
  pub outside : IsOutside m.words pgdir page
  pub room : m.frames.ref page + 1 < 2 ^ 31

-- The words do not matter to the references.
pub words-IsShifted :
    (old new : ℕ) (m t : Memory) (w : ℕ → ℕ → ℕ)
    → IsShifted old new m t
    → IsShifted old new m (record t { words = w })
words-IsShifted old new m t w sh = record {
  pages = sh.pages;
  sound = record { area = sh.sound.area; open_pages = sh.sound.open_pages; idle = sh.sound.idle };
  refs = sh.refs;
  held = λ x h c. let k = sh.held x h c in record { fits = k.fits; used = k.used; clean = k.clean };
  freed = λ x h. sh.freed x (record { fits = h.fits; used = h.used; clean = h.clean });
  free = sh.free;
  bounded = sh.bounded;
}

-- A page that is mapped is in use and has a reference.
pub mapped-IsHeld :
    (pgdir i j : ℕ) (m : Memory)
    → IsSpace pgdir m
    → i < 1024
    → j < 1024
    → is_present (m.words pgdir i) ≡ true
    → is_present (m.words (frame_of (m.words pgdir i)) j) ≡ true
    → IsHeld m (frame_of (m.words (frame_of (m.words pgdir i)) j))
      × (0 < m.frames.ref (frame_of (m.words (frame_of (m.words pgdir i)) j)))
mapped-IsHeld pgdir i j m s a b p q =
    let at = pte_at-here m.words pgdir i j b p in
    let v = i * 1024 + j in
    let c : v < 1048576 = omega arith in
    let q' : is_present (pte_at m.words pgdir v) ≡ true = rw at q in
    let h = s.held (frame_of (pte_at m.words pgdir v)) (inr (inr (v, c, q', refl))) in
    let one : names (pte_at m.words pgdir v) (frame_of (pte_at m.words pgdir v)) ≡ 1 =
      rw q' (ground arith) in
    let pos : 0 < m.frames.ref (frame_of (pte_at m.words pgdir v)) = omega (
      arith,
      one,
      s.counted (frame_of (pte_at m.words pgdir v)),
      names-le-count_names (pte_at m.words pgdir) (frame_of (pte_at m.words pgdir v)) 1048576 v c,
    ) in
    (rw at at h, rw at at pos)

module _ (pgdir page perm i j : ℕ) (m : Memory) (s : IsSpace pgdir m) (g : IsPage pgdir page m)
    (low : perm < 4096) (a : i < 1024) (b : j < 1024)
    (p : is_present (m.words pgdir i) ≡ true) where
  abbrev pub old : ℕ
  old = m.words (frame_of (m.words pgdir i)) j

  small : page < 2 ^ 20
  small = omega (arith, g.held.fits, s.area.small)

  pub names_new : (f : ℕ) → names (new_pte page perm) f ≡ (if page == f then 1 else 0)
  names_new f = rw (is_present-new_pte page perm, frame_of-new_pte page perm small low) refl

  -- The memory with other counts of references.
  abbrev with_refs : (ℕ → ℕ) → Memory
  with_refs f = record m { frames = record m.frames { ref = f } }

  refs-IsSound :
      (f : ℕ → ℕ) → ((x : ℕ) → (x == page) ≡ false → f x ≡ m.frames.ref x) → IsSound (with_refs f)
  refs-IsSound f same = record {
    area = IsArea-ref m.page_count m.frames f s.area;
    open_pages = s.open_pages;
    idle = λ x z. ground (arith, same x, s.idle x, g.held.used);
  }

  refs-IsHeld : (f : ℕ → ℕ) (x : ℕ) → IsHeld m x → IsHeld (with_refs f) x
  refs-IsHeld f x h = record { fits = h.fits; used = h.used; clean = h.clean }

  inc-ref :
      (x : ℕ)
      → (page_ref_inc page m).frames.ref x
        ≡ (if x == page then m.frames.ref x + 1 else m.frames.ref x)
  inc-ref x = ground (arith, g.room)

  restored : (x : ℕ) → (page_ref_dec page (page_ref_inc page m)).frames.ref x ≡ m.frames.ref x
  restored x = ground (arith, g.room)

  -- Nothing was mapped.
  absent-IsShifted :
      is_present old ≡ false → IsShifted old (new_pte page perm) m (page_ref_inc page m)
  absent-IsShifted q = record {
    pages = refl;
    sound = refs-IsSound (page_ref_inc page m).frames.ref (λ x n. ground arith);
    refs = λ f. rw (q, names_new f, inc-ref f) (ground arith);
    held = λ x h c. refs-IsHeld (page_ref_inc page m).frames.ref x h;
    free = λ x f. f;
    freed = λ x h n z. absurd (ground arith);
    bounded = λ f. rw (inc-ref f) (ground (arith, s.bounded f, g.room));
  }

  -- The same page was mapped.
  same-IsShifted :
      is_present old ≡ true
      → (frame_of old == page) ≡ true
      → 0 < m.frames.ref (frame_of old)
      → IsShifted old (new_pte page perm) m (page_ref_dec page (page_ref_inc page m))
  same-IsShifted q e pos = record {
    pages = refl;
    sound = refs-IsSound (page_ref_dec page (page_ref_inc page m)).frames.ref (λ x n. ground arith);
    refs = λ f. rw (restored f, names_new f, q) (ground arith);
    held = λ x h c. refs-IsHeld (page_ref_dec page (page_ref_inc page m)).frames.ref x h;
    free = λ x f. f;
    freed = λ x h n z. absurd (ground (arith, restored x, pos));
    bounded = λ f. rw (restored f) (s.bounded f);
  }

  -- Another page was mapped, and has lost a reference.
  other-IsShifted :
      (t : Memory)
      → is_present old ≡ true
      → (frame_of old == page) ≡ false
      → 0 < m.frames.ref (frame_of old)
      → IsDropped (frame_of old) (page_ref_inc page m) t
      → IsShifted old (new_pte page perm) m t
  other-IsShifted t q e pos d = record {
    pages = d.pages;
    sound = d.sound;
    refs = λ f. rw (names_new f, q, d.refs f, inc-ref f) (ground arith);
    held = λ x h c. d.held x (refs-IsHeld (page_ref_inc page m).frames.ref x h) (ground arith);
    free = d.free;
    freed = λ x h n z. let is : x ≡ frame_of old = ground arith in rw is (d.freed (rw is at z));
    bounded = λ f. rw (d.refs f, inc-ref f) (ground (arith, s.bounded f, g.room));
  }

  -- What `replace` leaves: the words are the old ones, or have 0 in the entry.
  abbrev pub Replaced : Memory → Type 0
  Replaced t =
      IsShifted old (new_pte page perm) m t
      × ((t.words ≡ m.words) ⊎ (t.words ≡ write m.words (frame_of (m.words pgdir i)) j 0))

  replace-other :
      (t : Memory)
      → is_present old ≡ true
      → is_frame m (frame_of old) ≡ true
      → (frame_of old == page) ≡ false
      → drop_ref (frame_of old) (page_ref_inc page m) ≡ some t
      → replace page (frame_of (m.words pgdir i), j) (page_ref_inc page m)
        ≡ some (set_word (frame_of (m.words pgdir i)) j 0 t)
  unfolding replace pte_remove_page
  replace-other t q fits e run = rw (q, fits, e, run) refl

  pub replace-Replaced :
      (t : Memory) × (replace page (frame_of (m.words pgdir i), j) (page_ref_inc page m) ≡ some t)
      × Replaced t
  unfolding replace pte_remove_page
  replace-Replaced = elim (Bool-cases (is_present old)) [
    | inl q ↦
        let (h, pos) = mapped-IsHeld pgdir i j m s a b p q in
        let fits : is_frame m (frame_of old) ≡ true = ground (arith, h.fits) in
        elim (Bool-cases (frame_of old == page)) [
          | inl e ↦ (
            page_ref_dec page (page_ref_inc page m),
            rw (q, fits, e) refl,
            (same-IsShifted q e pos, inl refl),
          )
          | inr e ↦
              let (t, run, d) =
                drop_ref-IsDropped (frame_of old) (page_ref_inc page m)
                  (refs-IsSound (page_ref_inc page m).frames.ref (λ x n. ground arith))
                  (refs-IsHeld (page_ref_inc page m).frames.ref (frame_of old) h)
                  (rw (inc-ref (frame_of old)) (ground arith))
                  (rw (inc-ref (frame_of old))
                    (ground (arith, s.bounded (frame_of old), g.room))) in
              (
                set_word (frame_of (m.words pgdir i)) j 0 t,
                replace-other t q fits e run,
                (
                  words-IsShifted old (new_pte page perm) m t
                      (write t.words (frame_of (m.words pgdir i)) j 0)
                      (other-IsShifted t q e pos d),
                  inr (ap (λ (w : ℕ → ℕ → ℕ). write w (frame_of (m.words pgdir i)) j 0) d.words),
                ),
              )
        ]
    | inr q ↦ (page_ref_inc page m, rw q refl, (absent-IsShifted q, inl refl))
  ]
