-- ===== src/Paging/Range/Shrink.antt =====
-- A table taken out of the directory and freed.
use freak_os.Base.{
  ℕ, ◌/◌, ◌≤◌, ◌<◌, ◌≡◌, ◌∙◌, inl, inr, refl, true, false, arith, ◌==◌, if◌then◌else◌, Bool-cases,
}
use freak_os.Pmm.{Area}
use freak_os.Pmm.Single.{IsReturned}
use freak_os.Paging.{Memory, is_present, frame_of, set_word}
use freak_os.Paging.Tree.{pte_at, IsTree, IsOutside}
use freak_os.Paging.Count.{count_names, names, count_names-le, count_names-zero}
use freak_os.Paging.Space.{IsHeld, IsNeeded, IsSpace}

module _ (pgdir i : ℕ) (m : Memory) (a : Area) (s : IsSpace pgdir m) (bound : i < 1024)
    (present : is_present (m.words pgdir i) ≡ true)
    (r : IsReturned m.page_count (frame_of (m.words pgdir i)) m.frames a) where
  abbrev pub shrunk : Memory
  shrunk = set_word pgdir i 0 (record m { frames = a })

  abbrev table : ℕ
  table = frame_of (m.words pgdir i)

  pub shrunk-directory : (k : ℕ) → shrunk.words pgdir k ≡ (if k == i then 0 else m.words pgdir k)
  shrunk-directory k = ground arith

  -- An entry of the directory that is still there is an old one.
  still : (k : ℕ) → is_present (shrunk.words pgdir k) ≡ true → (k == i) ≡ false
  still k q = ground arith

  old : (k : ℕ) → (k == i) ≡ false → shrunk.words pgdir k ≡ m.words pgdir k
  old k n = ground arith

  pub shrunk-pte_at :
      (v : ℕ)
      → v < 1048576
      → pte_at shrunk.words pgdir v ≡ (if v / 1024 == i then 0 else pte_at m.words pgdir v)
  shrunk-pte_at v c = elim (Bool-cases (v / 1024 == i)) [
    | inl h ↦ let gone : shrunk.words pgdir (v / 1024) ≡ 0 = ground arith in rw (h, gone) refl
    | inr h ↦ elim (Bool-cases (is_present (m.words pgdir (v / 1024)))) [
      | inl q ↦
          let b = s.tree.below (v / 1024) (omega arith) q in
          rw (h, old (v / 1024) h, q) (ground arith)
      | inr q ↦ rw (h, old (v / 1024) h, q) refl
    ]
  ]

  -- The entry of a page that is still mapped.
  still_mapped :
      (v : ℕ)
      → v < 1048576
      → is_present (pte_at shrunk.words pgdir v) ≡ true
      → pte_at shrunk.words pgdir v ≡ pte_at m.words pgdir v
  still_mapped v c q = ground (arith, shrunk-pte_at v c)

  shrunk-IsOutside : (x : ℕ) → IsOutside m.words pgdir x → IsOutside shrunk.words pgdir x
  shrunk-IsOutside x o = record {
    directory = o.directory;
    table = λ k c q. let e = old k (still k q) in rw e (o.table k c (rw e at q));
  }

  shrunk-IsTree : IsTree shrunk.words pgdir
  shrunk-IsTree = record {
    below = λ k c q. let e = old k (still k q) in rw e (s.tree.below k c (rw e at q));
    apart = λ k l c d n q p.
        let e = old k (still k q) in
        let f = old l (still l p) in rw (e, f) (s.tree.apart k l c d n (rw e at q) (rw f at p));
    leaf = λ v c q.
        let e = still_mapped v c q in
        rw e (shrunk-IsOutside (frame_of (pte_at m.words pgdir v)) (s.tree.leaf v c (rw e at q)));
  }

  -- What is needed now was needed before, and is not the table.
  kept-IsHeld : (x : ℕ) → IsHeld m x → (x == table) ≡ false → IsHeld shrunk x
  kept-IsHeld x h n = record {
    fits = h.fits;
    used = ground (arith, r.freed x, h.used);
    clean = (r.reserved x n ∙ h.clean.0, r.heads x n h.clean.1);
  }

  shrunk-IsHeld : (x : ℕ) → IsNeeded shrunk.words pgdir x → IsHeld shrunk x
  shrunk-IsHeld x (inl e) =
      kept-IsHeld x (s.held x (inl e)) (ground (arith, s.tree.below i bound present))
  shrunk-IsHeld x (inr (inl (k, c, q, e))) =
      let n = still k q in
      let o = old k n in
      let q' = rw o at q in
      let e' : x ≡ frame_of (m.words pgdir k) = rw o at e in
      kept-IsHeld x (s.held x (inr (inl (k, c, q', e'))))
        (rw e' (s.tree.apart k i c bound n q' present))
  shrunk-IsHeld x (inr (inr (v, c, q, e))) =
      let o = still_mapped v c q in
      let q' = rw o at q in
      let e' : x ≡ frame_of (pte_at m.words pgdir v) = rw o at e in
      kept-IsHeld x (s.held x (inr (inr (v, c, q', e'))))
        (rw e' ((s.tree.leaf v c q').table i bound present))

  table-unnamed :
      (v : ℕ) → v < 1048576 → (f : ℕ) → (f == table) ≡ true → names (pte_at m.words pgdir v) f ≡ 0
  table-unnamed v c f e =
      let is : f ≡ table = ground arith in
      elim (Bool-cases (is_present (pte_at m.words pgdir v))) [
        | inl q ↦ rw (is, q, (s.tree.leaf v c q).table i bound present) refl
        | inr q ↦ rw q refl
      ]

  shrunk-counted : (f : ℕ) → count_names (pte_at shrunk.words pgdir) f 1048576 ≤ a.ref f
  shrunk-counted f =
      let less =
        count_names-le (pte_at m.words pgdir) (pte_at shrunk.words pgdir) f 1048576
          (λ v c. ground (arith, shrunk-pte_at v c)) in
      elim (Bool-cases (f == table)) [
        | inl e ↦
            let none_left =
              count_names-zero (pte_at m.words pgdir) f 1048576 (λ v c. table-unnamed v c f e) in
            omega (arith, less, none_left)
        | inr e ↦ ground (arith, r.refs f, s.counted f, less)
      ]

  pub shrunk-IsSpace : IsSpace pgdir shrunk
  shrunk-IsSpace = record {
    area = r.area;
    tree = shrunk-IsTree;
    open_pages = λ x f. elim (Bool-cases (x == table)) [
      | inl e ↦ let is : x ≡ table = ground arith in rw is r.open_page
      | inr e ↦ r.reserved x e ∙ s.open_pages x (ground (arith, r.freed x))
    ];
    idle = λ x f. ground (arith, r.freed x, r.refs x, r.ref, s.idle x);
    held = shrunk-IsHeld;
    counted = shrunk-counted;
    bounded = λ f. ground (arith, r.refs f, r.ref, s.bounded f);
  }
