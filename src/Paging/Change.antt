-- ===== src/Paging/Change.antt =====
-- One entry changes, with the references to what it named and to what it names.
use freak_os.Base.{
  ℕ, ◌+◌, ◌*◌, ◌≤◌, ◌<◌, ◌^◌, ◌≡◌, ◌⊎◌, ◌∙◌, inl, inr, refl, true, false, arith, ◌==◌,
  if◌then◌else◌, Bool-cases,
}
use freak_os.Pmm.Single.{free_count}
use freak_os.Paging.{Memory, is_present, frame_of}
use freak_os.Paging.Tree.{pte_at, IsOutside, write, pte_at-write, write-IsTree, write-directory}
use freak_os.Paging.Count.{count_names, names, count_names-change, names-le-count_names}
use freak_os.Paging.Space.{IsHeld, IsNeeded, IsSpace}
use freak_os.Paging.Drop.{IsSound}

-- From `m` to `t` the references to the frame of `old` go down by one, and those to the frame of `new` up;
-- what keeps a reference stays in use.
pub record IsShifted (old new : ℕ) (m t : Memory) : Type 0 where
  pub pages : t.page_count ≡ m.page_count
  pub sound : IsSound t
  pub refs : (f : ℕ) → t.frames.ref f + names old f ≡ m.frames.ref f + names new f
  pub held : (x : ℕ) → IsHeld m x → (names old x ≡ 0) ⊎ (0 < t.frames.ref x) → IsHeld t x
  pub freed :
      (x : ℕ) → IsHeld m x → names old x ≡ 1 → t.frames.ref x ≡ 0 → free_count t.frames x ≡ 1
  pub free : (x : ℕ) → free_count m.frames x ≡ 1 → free_count t.frames x ≡ 1
  pub bounded : (f : ℕ) → t.frames.ref f < 2 ^ 31

module _ (pgdir i j new : ℕ) (m t : Memory) (s : IsSpace pgdir m) (a : i < 1024) (b : j < 1024)
    (p : is_present (m.words pgdir i) ≡ true)
    (out : is_present new ≡ true → IsOutside m.words pgdir (frame_of new) × IsHeld m (frame_of new))
    (sh : IsShifted (pte_at m.words pgdir (i * 1024 + j)) new m t) where
  abbrev written : ℕ → ℕ → ℕ
  written = write m.words (frame_of (m.words pgdir i)) j new

  abbrev entries : ℕ → ℕ
  entries = pte_at m.words pgdir

  at_entry :
      (v : ℕ)
      → v < 1048576
      → pte_at written pgdir v ≡ (if v == i * 1024 + j then new else entries v)
  at_entry v c = pte_at-write m.words pgdir s.tree i j new v a b c p

  changed-counted : (f : ℕ) → count_names (pte_at written pgdir) f 1048576 ≤ t.frames.ref f
  changed-counted f =
      let v = i * 1024 + j in
      let c : v < 1048576 = omega arith in
      let at : pte_at written pgdir v ≡ new = at_entry v c ∙ ground arith in
      let change =
        count_names-change entries (pte_at written pgdir) f 1048576 v c
          (λ u d n. at_entry u d ∙ (rw n refl)) in
      omega (arith, rw at at change, sh.refs f, s.counted f)

  abbrev old : ℕ
  old = entries (i * 1024 + j)

  -- The old entry does not name the directory or a table.
  unnamed : (x : ℕ) → (is_present old ≡ true → (frame_of old == x) ≡ false) → names old x ≡ 0
  unnamed x other = elim (Bool-cases (is_present old)) [
    | inl q ↦ rw (q, other q) refl
    | inr q ↦ rw q refl
  ]

  changed-IsHeld : (x : ℕ) → IsNeeded written pgdir x → IsHeld t x
  changed-IsHeld x (inl e) =
      let other = unnamed pgdir (λ q. (s.tree.leaf (i * 1024 + j) (omega arith) q).directory) in
      sh.held x (s.held x (inl e)) (inl (rw e other))
  changed-IsHeld x (inr (inl (k, c, q, e))) =
      let same = write-directory m.words pgdir s.tree i j new k a p in
      let q' : is_present (m.words pgdir k) ≡ true = rw same at q in
      let e' : x ≡ frame_of (m.words pgdir k) = rw same at e in
      let other =
        unnamed (frame_of (m.words pgdir k))
          (λ r. (s.tree.leaf (i * 1024 + j) (omega arith) r).table k c q') in
      sh.held x (s.held x (inr (inl (k, c, q', e')))) (inl (rw e' other))
  changed-IsHeld x (inr (inr (v, c, q, e))) =
      let named : names (pte_at written pgdir v) x ≡ 1 = rw (e, q) (ground arith) in
      let some_ref : 0 < t.frames.ref x = omega (
        arith,
        named,
        names-le-count_names (pte_at written pgdir) x 1048576 v c,
        changed-counted x,
      ) in
      elim (Bool-cases (v == i * 1024 + j)) [
        | inl h ↦
            let new_at : pte_at written pgdir v ≡ new = at_entry v c ∙ (rw h refl) in
            let is : x ≡ frame_of new = rw new_at at e in
            sh.held x (rw is (out (rw new_at at q)).1) (inr some_ref)
        | inr h ↦
            let old_at : pte_at written pgdir v ≡ entries v = at_entry v c ∙ (rw h refl) in
            sh.held x (s.held x (inr (inr (v, c, rw old_at at q, rw old_at at e)))) (inr some_ref)
      ]

  pub changed-IsSpace : IsSpace pgdir (record t { words = written })
  changed-IsSpace = record {
    area = sh.sound.area;
    tree = write-IsTree m.words pgdir s.tree i j new a b p (λ q. (out q).0);
    open_pages = sh.sound.open_pages;
    idle = sh.sound.idle;
    held = λ x need.
        let h = changed-IsHeld x need in record { fits = h.fits; used = h.used; clean = h.clean };
    counted = changed-counted;
    bounded = sh.bounded;
  }
