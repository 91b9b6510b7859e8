-- ===== src/Paging/Drop.antt =====
-- One reference to a page less: what is freed, and what stays.
use freak_os.Base.{
  ℕ, ◌-◌, ◌<◌, ◌^◌, ◌≡◌, ◌⊎◌, ◌∙◌, inl, inr, refl, true, false, arith, ◌==◌, if◌then◌else◌, update,
  some, Bool-cases,
}
use freak_os.Base.Bits.{get_bit}
use freak_os.Base.Word.{sub32}
use freak_os.Pmm.{Area}
use freak_os.Pmm.Invariant.{IsArea}
use freak_os.Pmm.Single.{free_count, IsReturned, free_pages-IsReturned, IsArea-ref}
use freak_os.Paging.{Memory, drop_ref, page_ref_dec, is_unused}
use freak_os.Paging.Space.{IsHeld}

-- No frame that can be taken is reserved, and the allocator is valid.
pub record IsSound (m : Memory) : Type 0 where
  pub area : IsArea m.page_count m.frames
  pub open_pages : (x : ℕ) → free_count m.frames x ≡ 1 → get_bit (m.frames.flags x) 0 ≡ 0
  pub idle : (x : ℕ) → free_count m.frames x ≡ 1 → m.frames.ref x ≡ 0

-- `t` is `m` with one reference to the page `p` less; only `p` may have been freed.
pub record IsDropped (p : ℕ) (m t : Memory) : Type 0 where
  pub words : t.words ≡ m.words
  pub pages : t.page_count ≡ m.page_count
  pub sound : IsSound t
  pub refs : (x : ℕ) → t.frames.ref x ≡ (if x == p then m.frames.ref x - 1 else m.frames.ref x)
  pub held : (x : ℕ) → IsHeld m x → ((x == p) ≡ false) ⊎ (0 < t.frames.ref x) → IsHeld t x
  pub free : (x : ℕ) → free_count m.frames x ≡ 1 → free_count t.frames x ≡ 1
  pub freed : t.frames.ref p ≡ 0 → free_count t.frames p ≡ 1

module _ (p : ℕ) (m : Memory) (s : IsSound m) (k : IsHeld m p) (pos : 0 < m.frames.ref p)
    (bound : m.frames.ref p < 2 ^ 31) where
  abbrev lowered : Area
  lowered = record m.frames { ref = update m.frames.ref p (sub32 (m.frames.ref p) 1) }

  lowered-ref : (x : ℕ) → lowered.ref x ≡ (if x == p then m.frames.ref x - 1 else m.frames.ref x)
  lowered-ref x = ground arith

  -- Others still refer to the page.
  drop_ref_kept : 1 < m.frames.ref p → IsDropped p m (record m { frames = lowered })
  drop_ref_kept many = record {
    words = refl;
    pages = refl;
    sound = record {
      area = IsArea-ref m.page_count m.frames lowered.ref s.area;
      open_pages = s.open_pages;
      idle = λ x f. ground (arith, s.idle x, k.used);
    };
    refs = lowered-ref;
    held = λ x h c. record { fits = h.fits; used = h.used; clean = h.clean };
    free = λ x f. f;
    freed = λ z. absurd (ground (arith, lowered-ref p));
  }

  drop_ref_freed :
      (a : Area)
      → m.frames.ref p ≡ 1
      → IsReturned m.page_count p lowered a
      → IsDropped p m (record m { frames = a })
  drop_ref_freed a one r = record {
    words = refl;
    pages = refl;
    sound = record {
      area = r.area;
      open_pages = λ x f. elim (Bool-cases (x == p)) [
        | inl e ↦ let same : x ≡ p = ground arith in rw same r.open_page
        | inr e ↦ r.reserved x e ∙ s.open_pages x (ground (arith, r.freed x))
      ];
      idle = λ x f. ground (arith, r.freed x, r.ref, r.refs x, s.idle x);
    };
    refs = λ x. ground (arith, r.refs x, r.ref);
    held = λ x h c.
        let other : (x == p) ≡ false = ground (arith, r.ref) in
        record {
          fits = h.fits;
          used = ground (arith, r.freed x, h.used);
          clean = (r.reserved x other ∙ h.clean.0, r.heads x other h.clean.1);
        };
    free = λ x f. ground (arith, r.freed x);
    freed = λ z. r.freed p ∙ ground arith;
  }

  pub drop_ref-IsDropped : (t : Memory) × (drop_ref p m ≡ some t) × IsDropped p m t
  unfolding drop_ref
  drop_ref-IsDropped = elim (Bool-cases (m.frames.ref p == 1)) [
    | inl one ↦
        let (a, e, r) =
          free_pages-IsReturned m.page_count p lowered
            (IsArea-ref m.page_count m.frames lowered.ref s.area) k.fits k.used k.clean in
        let unused : is_unused p (page_ref_dec p m) ≡ true = ground arith in
        (record m { frames = a }, rw (unused, e) refl, drop_ref_freed a (ground arith) r)
    | inr more ↦
        let unused : is_unused p (page_ref_dec p m) ≡ false = ground arith in
        (record m { frames = lowered }, rw unused refl, drop_ref_kept (ground arith))
  ]
