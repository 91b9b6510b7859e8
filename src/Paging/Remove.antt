-- ===== src/Paging/Remove.antt =====
-- `page_remove` takes a mapping away, with its reference.
use freak_os.Base.{
  ℕ, ◌+◌, ◌*◌, ◌/◌, ◌<◌, ◌≡◌, ◌⊎◌, ◌∙◌, inl, inr, refl, sym, ap, true, false, arith, ◌==◌,
  if◌then◌else◌, Bool-cases, some, none,
}
use mathlib.Core.Path.{subst}
use freak_os.Pmm.Single.{free_count}
use freak_os.Paging.{
  Memory, is_present, frame_of, is_frame, pgd_index, pte_index, drop_ref, entry_in, pte_remove_page,
  page_remove, set_word, get_pte,
}
use freak_os.Paging.Tree.{pte_at, write, pte_at-write, write-directory}
use freak_os.Paging.Count.{names}
use freak_os.Paging.Space.{IsHeld, IsSpace, page_of}
use freak_os.Paging.Drop.{IsSound, IsDropped, drop_ref-IsDropped}
use freak_os.Paging.Change.{IsShifted, changed-IsSpace}
use freak_os.Paging.Replace.{pte_at-here, mapped-IsHeld}

-- An entry that is not present stays what it is.
abbrev pub cleared : ℕ → ℕ
cleared e = if is_present e then 0 else e

-- From `m` to `t` the page `page` is unmapped, with a reference less for its frame.
pub record IsRemoved (pgdir page : ℕ) (m t : Memory) : Type 0 where
  pub space : IsSpace pgdir t
  pub mapped :
      (v : ℕ)
      → v < 1048576
      → pte_at t.words pgdir v
        ≡ (if v == page then cleared (pte_at m.words pgdir v) else pte_at m.words pgdir v)
  pub refs : (f : ℕ) → t.frames.ref f + names (pte_at m.words pgdir page) f ≡ m.frames.ref f
  pub directory : (k : ℕ) → t.words pgdir k ≡ m.words pgdir k
  pub held : (x : ℕ) → IsHeld m x → 0 < t.frames.ref x → IsHeld t x
  pub free : (x : ℕ) → free_count m.frames x ≡ 1 → free_count t.frames x ≡ 1
  pub freed :
      (f : ℕ)
      → IsHeld m f
      → names (pte_at m.words pgdir page) f ≡ 1
      → t.frames.ref f ≡ 0
      → free_count t.frames f ≡ 1

module _ (pgdir i j : ℕ) (m : Memory) (s : IsSpace pgdir m) (a : i < 1024) (b : j < 1024)
    (p : is_present (m.words pgdir i) ≡ true) where
  abbrev table : ℕ
  table = frame_of (m.words pgdir i)

  -- The entry that is cleared is that of its virtual page.
  cleared_at :
      (v e : ℕ)
      → cleared (m.words table j) ≡ e
      → (if v == i * 1024 + j then e else pte_at m.words pgdir v)
        ≡ (if v == i * 1024 + j then cleared (pte_at m.words pgdir v) else pte_at m.words pgdir v)
  cleared_at v e h =
      let at = pte_at-here m.words pgdir i j b p in
      elim (Bool-cases (v == i * 1024 + j)) [
        | inl k ↦ let is : v ≡ i * 1024 + j = ground arith in rw (k, is, at) (sym h)
        | inr k ↦ rw k refl
      ]

  -- An entry that is not present is left.
  left_at :
      (v : ℕ)
      → is_present (m.words table j) ≡ false
      → pte_at m.words pgdir v
        ≡ (if v == i * 1024 + j then cleared (pte_at m.words pgdir v) else pte_at m.words pgdir v)
  left_at v q =
      let at = pte_at-here m.words pgdir i j b p in
      elim (Bool-cases (v == i * 1024 + j)) [
        | inl k ↦ let is : v ≡ i * 1024 + j = ground arith in rw (k, is, at, q) refl
        | inr k ↦ rw k refl
      ]

  dropped-IsShifted :
      (t : Memory)
      → is_present (m.words table j) ≡ true
      → 0 < m.frames.ref (frame_of (m.words table j))
      → IsDropped (frame_of (m.words table j)) m t
      → IsShifted (m.words table j) 0 m t
  dropped-IsShifted t q pos d = record {
    pages = d.pages;
    sound = d.sound;
    refs = λ f. rw (q, d.refs f) (ground arith);
    held = λ x h c. d.held x h (ground arith);
    free = d.free;
    freed = λ x h n z.
        let is : x ≡ frame_of (m.words table j) = ground arith in rw is (d.freed (rw is at z));
    bounded = λ f. rw (d.refs f) (ground (arith, s.bounded f));
  }

  dropped-IsRemoved :
      (t : Memory)
      → is_present (m.words table j) ≡ true
      → 0 < m.frames.ref (frame_of (m.words table j))
      → IsDropped (frame_of (m.words table j)) m t
      → IsRemoved pgdir (i * 1024 + j) m (set_word table j 0 t)
  dropped-IsRemoved t q pos d =
      let at = pte_at-here m.words pgdir i j b p in
      let sh = dropped-IsShifted t q pos d in
      let same = ap (λ (w : ℕ → ℕ → ℕ). write w table j 0) d.words in
      let changed =
        changed-IsSpace pgdir i j 0 m t s a b p (λ k. absurd (ground arith)) (rw at sh) in
      record {
        space =
            subst (λ (w : ℕ → ℕ → ℕ). IsSpace pgdir (record t { words = w })) (sym same) changed;
        mapped = λ v c.
            let here = pte_at-write m.words pgdir s.tree i j 0 v a b c p in
            let there = cleared_at v 0 (rw q refl) in
            subst
              (λ (w : ℕ → ℕ → ℕ). pte_at w pgdir v ≡ (
                if v == i * 1024 + j
                then cleared (pte_at m.words pgdir v)
                else pte_at m.words pgdir v))
              (sym same) (here ∙ there);
        refs = λ f. rw at (omega (arith, sh.refs f));
        directory = λ k.
            ap (λ (w : ℕ → ℕ → ℕ). w pgdir k) same
            ∙ write-directory m.words pgdir s.tree i j 0 k a p;
        held = λ x h z.
            let k = sh.held x h (inr z) in record { fits = k.fits; used = k.used; clean = k.clean };
        free = sh.free;
        freed = λ f h n z. sh.freed f h (rw at at n) z;
      }

  kept-IsRemoved : is_present (m.words table j) ≡ false → IsRemoved pgdir (i * 1024 + j) m m
  kept-IsRemoved q =
      let at = pte_at-here m.words pgdir i j b p in
      record {
        space = s;
        mapped = λ v c. left_at v q;
        refs = λ f. rw (at, q) (omega arith);
        directory = λ k. refl;
        held = λ x h z. h;
        free = λ x f. f;
        freed = λ f h n z. absurd (ground (arith, at));
      }

  remove_run :
      (t : Memory)
      → is_present (m.words table j) ≡ true
      → is_frame m (frame_of (m.words table j)) ≡ true
      → drop_ref (frame_of (m.words table j)) m ≡ some t
      → pte_remove_page (table, j) m ≡ some (set_word table j 0 t)
  unfolding pte_remove_page
  remove_run t q fits run = rw (q, fits, run) refl

  pub pte_remove_page-IsRemoved :
      (t : Memory) × (pte_remove_page (table, j) m ≡ some t) × IsRemoved pgdir (i * 1024 + j) m t
  unfolding pte_remove_page
  pte_remove_page-IsRemoved = elim (Bool-cases (is_present (m.words table j))) [
    | inl q ↦
        let (h, pos) = mapped-IsHeld pgdir i j m s a b p q in
        let sound : IsSound m = record {
          area = s.area;
          open_pages = s.open_pages;
          idle = s.idle;
        } in
        let (t, run, d) =
          drop_ref-IsDropped (frame_of (m.words table j)) m sound h pos
            (s.bounded (frame_of (m.words table j))) in
        (
          set_word table j 0 t,
          remove_run t q (ground (arith, h.fits)) run,
          dropped-IsRemoved t q pos d,
        )
    | inr q ↦ (m, rw q refl, kept-IsRemoved q)
  ]

-- Where there is no table, nothing is mapped.
pub absent-pte_at :
    (pgdir v : ℕ) (m : Memory)
    → is_present (m.words pgdir (v / 1024)) ≡ false
    → pte_at m.words pgdir v ≡ 0
absent-pte_at pgdir v m q = rw q refl

absent-IsRemoved :
    (pgdir va : ℕ) (m : Memory)
    → IsSpace pgdir m
    → is_present (m.words pgdir (pgd_index va)) ≡ false
    → IsRemoved pgdir (page_of va) m m
absent-IsRemoved pgdir va m s q =
    let k : pgd_index va ≡ page_of va / 1024 = omega arith in
    let none = absent-pte_at pgdir (page_of va) m (rw k at q) in
    record {
      space = s;
      mapped = λ v c. elim (Bool-cases (v == page_of va)) [
        | inl h ↦ let is : v ≡ page_of va = ground arith in rw (h, is, none) refl
        | inr h ↦ rw h refl
      ];
      refs = λ f. rw none (omega arith);
      directory = λ k. refl;
      held = λ x h z. h;
      free = λ x f. f;
      freed = λ f h n z. absurd (ground (arith, none));
    }

page_remove_run :
    (pgdir va : ℕ) (m t : Memory)
    → get_pte pgdir va false m
      ≡ some (some (frame_of (m.words pgdir (pgd_index va)), pte_index va), m)
    → pte_remove_page (frame_of (m.words pgdir (pgd_index va)), pte_index va) m ≡ some t
    → page_remove pgdir va m ≡ some t
unfolding page_remove
page_remove_run pgdir va m t e run = rw (page_remove, e) run

-- `get_pte` without a table to make.
pub get_pte-no_create :
    (pgdir va : ℕ) (m : Memory)
    → IsSpace pgdir m
    → ((is_present (m.words pgdir (pgd_index va)) ≡ true)
        × (get_pte pgdir va false m
            ≡ some (some (frame_of (m.words pgdir (pgd_index va)), pte_index va), m)))
      ⊎ ((is_present (m.words pgdir (pgd_index va)) ≡ false)
          × (get_pte pgdir va false m ≡ some (none, m)))
unfolding get_pte entry_in
get_pte-no_create pgdir va m s = elim (Bool-cases (is_present (m.words pgdir (pgd_index va)))) [
  | inl q ↦
      let h = s.held _ (inr (inl (pgd_index va, omega arith, q, refl))) in
      let fits : is_frame m (frame_of (m.words pgdir (pgd_index va))) ≡ true =
        ground (arith, h.fits) in
      inl (q, rw (q, fits) refl)
  | inr q ↦ inr (q, rw q refl)
]

-- On a valid address space, `page_remove` never panics. It leaves a valid space, in which the virtual page of
-- the address is not mapped and every other one as before; the page that was mapped there has a reference
-- less, and is free when that was the last.
pub page_remove-IsRemoved :
    (pgdir va : ℕ) (m : Memory)
    → IsSpace pgdir m
    → (t : Memory) × (page_remove pgdir va m ≡ some t) × IsRemoved pgdir (page_of va) m t
unfolding page_remove
page_remove-IsRemoved pgdir va m s = elim (get_pte-no_create pgdir va m s) [
  | inl (q, e) ↦
      let (t, run, r) =
        pte_remove_page-IsRemoved pgdir (pgd_index va) (pte_index va) m s (omega arith)
          (omega arith) q in
      let number : pgd_index va * 1024 + pte_index va ≡ page_of va = omega arith in
      (t, page_remove_run pgdir va m t e run, rw number at r)
  | inr (q, e) ↦ (m, rw (page_remove, e) refl, absent-IsRemoved pgdir va m s q)
]
