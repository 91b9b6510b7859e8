-- ===== src/Paging/Lookup.antt =====
-- `get_pte` finds the entry of a virtual page, and makes a table for it where there is none.
use freak_os.Base.{
  ℕ, ◌≤◌, ◌<◌, ◌^◌, ◌≡◌, ◌⊎◌, ◌∙◌, inl, inr, refl, ap, true, false, arith, ◌==◌, update, leb,
  Option, none, some, Bool-cases,
}
use freak_os.Pmm.{Area, alloc_pages}
use freak_os.Pmm.Single.{IsTaken, alloc_pages-IsTaken, IsArea-ref}
use freak_os.Paging.{
  Memory, is_present, frame_of, is_frame, pgd_index, pte_index, get_pte, new_table, add_table,
  entry_in, new_pde,
}
use freak_os.Paging.Entry.{frame_of-new_pde, is_present-new_pde}
use freak_os.Paging.Tree.{pte_at, IsOutside}
use freak_os.Paging.Grow.{grow, pte_at-grow, grow-IsTree, grow-IsOutside, entry-cases}
use freak_os.Paging.Count.{count_names, count_names-agree, count_names-zero}
use freak_os.Paging.Space.{IsHeld, IsNeeded, IsSpace, IsSameMap, IsKept}

-- The memory with a new table in the frame `p`, which the allocator, now `a`, gave.
abbrev with_table : ℕ → ℕ → ℕ → Area → Memory → Memory
with_table pgdir i p a m = record {
  frames = record a { ref = update a.ref p 1 };
  words = grow m.words pgdir i (new_pde p) p;
  page_count = m.page_count;
}

module _ (pgdir i p : ℕ) (m : Memory) (a : Area) (s : IsSpace pgdir m)
    (h : IsTaken m.page_count p m.frames a) (bound : i < 1024)
    (absent : is_present (m.words pgdir i) ≡ false) where
  small : p < 2 ^ 20
  small = omega (arith, h.fits, h.area.small)

  -- A frame in use is not the one that was free.
  held-other : (x : ℕ) → IsHeld m x → (x == p) ≡ false
  held-other x k = ground (arith, k.used, h.was_free)

  unmapped :
      (v : ℕ)
      → v < 1048576
      → is_present (pte_at m.words pgdir v) ≡ true
      → (frame_of (pte_at m.words pgdir v) == p) ≡ false
  unmapped v c q =
      held-other (frame_of (pte_at m.words pgdir v)) (s.held _ (inr (inr (v, c, q, refl))))

  table_out : IsOutside m.words pgdir p
  table_out = record {
    directory = ground (arith, held-other pgdir (s.held pgdir (inl refl)));
    table = λ k c q.
        ground
          (arith, held-other (frame_of (m.words pgdir k)) (s.held _ (inr (inl (k, c, q, refl)))));
  }

  keep-IsHeld : (x : ℕ) → IsHeld m x → IsHeld (with_table pgdir i p a m) x
  keep-IsHeld x k =
      let n = held-other x k in
      record {
        fits = k.fits;
        used = ground (arith, h.taken x, k.used);
        clean = (h.reserved x ∙ k.clean.0, h.heads x k.used ∙ k.clean.1);
      }

  with_table-same : IsSameMap pgdir m (with_table pgdir i p a m)
  with_table-same =
      pte_at-grow m.words pgdir s.tree i (new_pde p) p bound absent (is_present-new_pde p)
        (frame_of-new_pde p small) table_out unmapped

  entries :
      (k : ℕ)
      → ((k ≡ i) × (grow m.words pgdir i (new_pde p) p pgdir k ≡ new_pde p))
        ⊎ (grow m.words pgdir i (new_pde p) p pgdir k ≡ m.words pgdir k)
  entries =
      entry-cases m.words pgdir s.tree i (new_pde p) p bound absent (is_present-new_pde p)
        (frame_of-new_pde p small) table_out unmapped

  table-IsHeld : IsHeld (with_table pgdir i p a m) p
  table-IsHeld = record {
    fits = h.fits;
    used = ground (arith, h.taken p);
    clean = (h.reserved p ∙ s.open_pages p h.was_free, h.head);
  }

  with_table-counted :
      (f : ℕ)
      → count_names (pte_at (grow m.words pgdir i (new_pde p) p) pgdir) f 1048576
        ≤ update a.ref p 1 f
  with_table-counted f =
      let same =
        count_names-agree (pte_at m.words pgdir) (pte_at (grow m.words pgdir i (new_pde p) p) pgdir)
          f 1048576 with_table-same in
      elim (Bool-cases (f == p)) [
        | inl e ↦
            let k : f ≡ p = ground arith in
            let none =
              count_names-zero (pte_at m.words pgdir) f 1048576
                (λ v c. ground (arith, unmapped v c)) in
            rw (same, none) (omega arith)
        | inr e ↦ ground (arith, same, s.counted f, ap (λ (g : ℕ → ℕ). g f) h.refs)
      ]

  with_table-IsHeld :
      (x : ℕ)
      → IsNeeded (grow m.words pgdir i (new_pde p) p) pgdir x
      → IsHeld (with_table pgdir i p a m) x
  with_table-IsHeld x (inl e) = rw e (keep-IsHeld pgdir (s.held pgdir (inl refl)))
  with_table-IsHeld x (inr (inl (k, c, q, e))) = elim (entries k) [
    | inl (i_k, new) ↦
        let at_p : x ≡ p = e ∙ (rw new (frame_of-new_pde p small)) in rw at_p table-IsHeld
    | inr old ↦
        keep-IsHeld x (s.held x (inr (inl (k, c, rw old at q, e ∙ ap (λ d. frame_of d) old))))
  ]
  with_table-IsHeld x (inr (inr (v, c, q, e))) =
      let same = with_table-same v c in
      keep-IsHeld x (s.held x (inr (inr (v, c, rw same at q, e ∙ ap (λ d. frame_of d) same))))

  with_table-IsSpace : IsSpace pgdir (with_table pgdir i p a m)
  with_table-IsSpace = record {
    area = IsArea-ref m.page_count a (update a.ref p 1) h.area;
    tree =
        grow-IsTree m.words pgdir s.tree i (new_pde p) p bound absent (is_present-new_pde p)
          (frame_of-new_pde p small) table_out unmapped;
    open_pages = λ x f. h.reserved x ∙ s.open_pages x (ground (arith, h.taken x));
    idle = λ x f. ground (arith, h.taken x, s.idle x, ap (λ (g : ℕ → ℕ). g x) h.refs);
    held = with_table-IsHeld;
    counted = with_table-counted;
    bounded = λ f. ground (arith, s.bounded f, ap (λ (g : ℕ → ℕ). g f) h.refs);
  }

  with_table-IsKept : IsKept pgdir m (with_table pgdir i p a m)
  with_table-IsKept = record {
    pages = refl;
    held = keep-IsHeld;
    refs = λ x k. ground (arith, held-other x k, ap (λ (g : ℕ → ℕ). g x) h.refs);
    outside = λ x k o.
        grow-IsOutside m.words pgdir s.tree i (new_pde p) p bound absent (is_present-new_pde p)
          (frame_of-new_pde p small) table_out unmapped x o (held-other x k);
  }

-- What `get_pte` gives when it may make a table: NULL and no change, or the entry of the virtual page in a
-- table that the directory names.
abbrev pub Looked : ℕ → ℕ → Memory → Option (Option (ℕ × ℕ) × Memory) → Type 0
Looked pgdir va m result =
    (result ≡ some (none, m))
    ⊎ ((t : Memory) × (result
          ≡ some (some (frame_of (t.words pgdir (pgd_index va)), pte_index va), t))
        × (is_present (t.words pgdir (pgd_index va)) ≡ true)
        × IsSpace pgdir t
        × IsSameMap pgdir m t
        × IsKept pgdir m t)

add_table-with_table :
    (pgdir va p : ℕ) (m : Memory) (a : Area)
    → p < m.page_count
    → add_table pgdir va p (record m { frames = a }) ≡ some (with_table pgdir (pgd_index va) p a m)
unfolding add_table
add_table-with_table pgdir va p m a fits =
    let fits' : leb p m.page_count ≡ true = ground arith in rw fits' refl

entry_in-some :
    (pde va p : ℕ) (m : Memory)
    → frame_of pde ≡ p
    → p < m.page_count
    → entry_in pde va m ≡ some (some (p, pte_index va), m)
unfolding entry_in
entry_in-some pde va p m e fits =
    let fits' : leb p m.page_count ≡ true = ground arith in rw (e, fits') refl

-- With a free frame there is a new table.
new_table-with_table :
    (pgdir va p : ℕ) (m : Memory) (a : Area)
    → p < 2 ^ 20
    → p < m.page_count
    → alloc_pages 1 m.frames ≡ some (some p, a)
    → new_table pgdir va m ≡ some (some (p, pte_index va), with_table pgdir (pgd_index va) p a m)
unfolding new_table
new_table-with_table pgdir va p m a low fits e =
    let added = add_table-with_table pgdir va p m a fits in
    let word : grow m.words pgdir (pgd_index va) (new_pde p) p pgdir (pgd_index va) ≡ new_pde p =
      ground arith in
    let found =
      entry_in-some (new_pde p) va p (with_table pgdir (pgd_index va) p a m)
        (frame_of-new_pde p low) fits in
    rw (e, new_table, added, word) found

pub get_pte-Looked :
    (pgdir va : ℕ) (m : Memory) → IsSpace pgdir m → Looked pgdir va m (get_pte pgdir va true m)
unfolding get_pte entry_in new_table
get_pte-Looked pgdir va m s = elim (Bool-cases (is_present (m.words pgdir (pgd_index va)))) [
  | inl q ↦
      let k = s.held _ (inr (inl (pgd_index va, omega arith, q, refl))) in
      let fits : is_frame m (frame_of (m.words pgdir (pgd_index va))) ≡ true =
        ground (arith, k.fits) in
      inr (
        m,
        rw (q, fits) refl,
        q,
        s,
        λ v c. refl,
        record { pages = refl; held = λ x k. k; refs = λ x k. refl; outside = λ x k o. o },
      )
  | inr q ↦ elim (alloc_pages-IsTaken m.page_count m.frames s.area) [
    | inl e ↦ inl (rw (q, new_table, e) refl)
    | inr (p, a, e, h) ↦
        let i = pgd_index va in
        let low : p < 2 ^ 20 = omega (arith, h.fits, s.area.small) in
        let word : grow m.words pgdir i (new_pde p) p pgdir i ≡ new_pde p = ground arith in
        inr (
          with_table pgdir i p a m,
          rw (word, frame_of-new_pde p low, q, new_table-with_table pgdir va p m a low h.fits e)
              refl,
          rw word (is_present-new_pde p),
          with_table-IsSpace pgdir i p m a s h (omega arith) q,
          with_table-same pgdir i p m a s h (omega arith) q,
          with_table-IsKept pgdir i p m a s h (omega arith) q,
        )
  ]
]
