-- ===== src/Paging/Fresh.antt =====
-- `pgdir_alloc_page` maps a page that was free.
use freak_os.Base.{
  ℕ, ◌<◌, ◌≡◌, ◌⊎◌, ◌∙◌, inl, inr, refl, ap, false, arith, ◌==◌, if◌then◌else◌, Bool-cases, Option,
  some, none,
}
use freak_os.Vmm.{e_nomem}
use freak_os.Pmm.{Area, alloc_pages, free_pages}
use freak_os.Pmm.Single.{
  free_count, IsTaken, alloc_pages-IsTaken, IsReturned, free_pages-IsReturned,
}
use freak_os.Paging.{Memory, frame_of, page_insert, pgdir_alloc_page, after_insert, new_pte}
use freak_os.Paging.Tree.{pte_at}
use freak_os.Paging.Count.{names-le-count_names}
use freak_os.Paging.Space.{IsHeld, IsSpace, IsSameMap, page_of}
use freak_os.Paging.Replace.{IsPage}
use freak_os.Paging.Insert.{page_insert-Inserted}

module _ (pgdir page : ℕ) (m : Memory) (a : Area) (s : IsSpace pgdir m)
    (h : IsTaken m.page_count page m.frames a) where
  abbrev taken : Memory
  taken = record m { frames = a }

  other : (x : ℕ) → IsHeld m x → (x == page) ≡ false
  other x k = ground (arith, k.used, h.was_free)

  taken-IsHeld : (x : ℕ) → IsHeld m x → IsHeld taken x
  taken-IsHeld x k =
      let n = other x k in
      record {
        fits = k.fits;
        used = ground (arith, h.taken x, k.used);
        clean = (h.reserved x ∙ k.clean.0, h.heads x k.used ∙ k.clean.1);
      }

  taken-ref : (x : ℕ) → a.ref x ≡ m.frames.ref x
  taken-ref x = ap (λ (g : ℕ → ℕ). g x) h.refs

  taken-IsSpace : IsSpace pgdir taken
  taken-IsSpace = record {
    area = h.area;
    tree = s.tree;
    open_pages = λ x f. h.reserved x ∙ s.open_pages x (ground (arith, h.taken x));
    idle = λ x f. taken-ref x ∙ s.idle x (ground (arith, h.taken x));
    held = λ x need. taken-IsHeld x (s.held x need);
    counted = λ f. rw (taken-ref f) (s.counted f);
    bounded = λ f. rw (taken-ref f) (s.bounded f);
  }

  taken-IsPage : IsPage pgdir page taken
  taken-IsPage = record {
    held = record {
      fits = h.fits;
      used = ground (arith, h.taken page);
      clean = (h.reserved page ∙ s.open_pages page h.was_free, h.head);
    };
    outside = record {
      directory = ground (arith, other pgdir (s.held pgdir (inl refl)));
      table = λ k c q.
          ground (arith, other (frame_of (m.words pgdir k)) (s.held _ (inr (inl (k, c, q, refl)))));
    };
    room = ground (arith, taken-ref page, s.idle page, h.was_free);
  }

  -- The page goes back.
  returned-IsSpace :
      (b : Area) → IsReturned m.page_count page a b → IsSpace pgdir (record m { frames = b })
  returned-IsSpace b r = record {
    area = r.area;
    tree = s.tree;
    open_pages = λ x f. elim (Bool-cases (x == page)) [
      | inl e ↦ let is : x ≡ page = ground arith in rw is r.open_page
      | inr e ↦
          r.reserved x e ∙ h.reserved x ∙ s.open_pages x (ground (arith, r.freed x, h.taken x))
    ];
    idle = λ x f. ground (arith, r.freed x, h.taken x, r.refs x, r.ref, taken-ref x, s.idle x);
    held = λ x need.
        let k = s.held x need in
        let n = other x k in
        let t = taken-IsHeld x k in
        record {
          fits = k.fits;
          used = ground (arith, r.freed x, t.used);
          clean = (r.reserved x n ∙ t.clean.0, r.heads x n t.clean.1);
        };
    counted = λ f. ground (arith, r.refs f, taken-ref f, s.counted f, s.idle f, h.was_free);
    bounded = λ f. ground (arith, r.refs f, r.ref, taken-ref f, s.bounded f);
  }

-- What `pgdir_alloc_page` gives: no memory and the same mappings, or a page that was free, with one reference.
abbrev pub Obtained : ℕ → ℕ → ℕ → Memory → Option (Option ℕ × Memory) → Type 0
Obtained pgdir la perm m result =
    ((t : Memory) × (result ≡ some (none, t)) × IsSpace pgdir t × IsSameMap pgdir m t)
    ⊎ ((page : ℕ) × (t : Memory) × (result ≡ some (some page, t))
        × (free_count m.frames page ≡ 1)
        × IsSpace pgdir t
        × ((v : ℕ)
            → v < 1048576
            → pte_at t.words pgdir v
              ≡ (if v == page_of la then new_pte page perm else pte_at m.words pgdir v))
        × (t.frames.ref page ≡ 1))

obtain_run :
    (pgdir la perm page ret : ℕ) (m t : Memory) (a : Area)
    → alloc_pages 1 m.frames ≡ some (some page, a)
    → page_insert pgdir page la perm (record m { frames = a }) ≡ some (ret, t)
    → pgdir_alloc_page pgdir la perm m ≡ after_insert page (some (ret, t))
unfolding pgdir_alloc_page
obtain_run pgdir la perm page ret m t a e run = rw (pgdir_alloc_page, e, run) refl

give_back :
    (page : ℕ) (m : Memory) (b : Area)
    → free_pages page 1 m.frames ≡ some b
    → after_insert page (some (e_nomem, m)) ≡ some (none, record m { frames = b })
unfolding after_insert
give_back page m b e = rw (after_insert, e) refl

-- On a valid address space, `pgdir_alloc_page` never panics. It finds no memory and changes no mapping, or it
-- maps the virtual page of the address, with the permissions, to a page that was free and now has one
-- reference, and changes no other mapping. The space stays valid.
pub pgdir_alloc_page-Obtained :
    (pgdir la perm : ℕ) (m : Memory)
    → IsSpace pgdir m
    → perm < 4096
    → Obtained pgdir la perm m (pgdir_alloc_page pgdir la perm m)
unfolding pgdir_alloc_page after_insert
pgdir_alloc_page-Obtained pgdir la perm m s low =
    elim (alloc_pages-IsTaken m.page_count m.frames s.area) [
      | inl e ↦ inl (m, rw (pgdir_alloc_page, e) refl, s, λ v c. refl)
      | inr (page, a, e, h) ↦
          let g = taken-IsPage pgdir page m a s h in
          elim (page_insert-Inserted pgdir page la perm (record m { frames = a })
            (taken-IsSpace pgdir page m a s h) g low) [
              | inl run ↦
                  let (b, free, r) =
                    free_pages-IsReturned m.page_count page a h.area h.fits g.held.used
                      g.held.clean in
                  inl (
                    record m { frames = b },
                    obtain_run pgdir la perm page e_nomem m (record m { frames = a }) a e run
                        ∙ give_back page (record m { frames = a }) b free,
                    returned-IsSpace pgdir page m a s h b r,
                    λ v c. refl,
                  )
              | inr (t, run, r) ↦
                  let none_before =
                    names-le-count_names (pte_at m.words pgdir) page 1048576 (page_of la)
                      (omega arith) in
                  let fresh : t.frames.ref page ≡ 1 = ground (
                    arith,
                    r.refs page g.held,
                    none_before,
                    s.counted page,
                    s.idle page h.was_free,
                    taken-ref pgdir page m a s h page,
                  ) in
                  inr (
                    page,
                    t,
                    obtain_run pgdir la perm page 0 m t a e run ∙ refl,
                    h.was_free,
                    r.space,
                    r.mapped,
                    fresh,
                  )
            ]
    ]
