-- ===== src/Paging/Insert.antt =====
-- `page_insert` maps a page, and lets go of the page that was mapped there before.
use freak_os.Base.{
  ℕ, ◌+◌, ◌*◌, ◌<◌, ◌≡◌, ◌⊎◌, ◌∙◌, inl, inr, refl, sym, ap, true, arith, ◌==◌, if◌then◌else◌,
  Option, some,
}
use mathlib.Core.Path.{fun_ext, subst}
use freak_os.Vmm.{e_nomem}
use freak_os.Pmm.Single.{free_count}
use freak_os.Paging.{
  Memory, is_present, frame_of, page_ref_inc, pgd_index, pte_index, replace, page_insert, new_pte,
  set_word, get_pte,
}
use freak_os.Paging.Entry.{frame_of-new_pte}
use freak_os.Paging.Tree.{pte_at, write, pte_at-write}
use freak_os.Paging.Count.{names}
use freak_os.Paging.Space.{IsHeld, IsSpace, IsSameMap, IsKept, page_of}
use freak_os.Paging.Change.{IsShifted, changed-IsSpace}
use freak_os.Paging.Lookup.{get_pte-Looked}
use freak_os.Paging.Replace.{pte_at-here, IsPage, names_new, replace-Replaced}

write-write : (w : ℕ → ℕ → ℕ) (f j x y : ℕ) → write (write w f j x) f j y ≡ write w f j y
write-write w f j x y = fun_ext λ k. fun_ext λ l. ground arith

-- The words after `replace` and the new entry.
words_after :
    (m t : Memory) (f j new : ℕ)
    → (t.words ≡ m.words) ⊎ (t.words ≡ write m.words f j 0)
    → write t.words f j new ≡ write m.words f j new
words_after m t f j new (inl e) = ap (λ (w : ℕ → ℕ → ℕ). write w f j new) e
words_after m t f j new (inr e) =
    ap (λ (w : ℕ → ℕ → ℕ). write w f j new) e ∙ write-write m.words f j 0 new

-- `t` is `m` with the virtual page of `va` mapped to the page.
pub record IsInserted (pgdir page va perm : ℕ) (m t : Memory) : Type 0 where
  pub space : IsSpace pgdir t
  pub mapped :
      (v : ℕ)
      → v < 1048576
      → pte_at t.words pgdir v
        ≡ (if v == page_of va then new_pte page perm else pte_at m.words pgdir v)
  pub refs :
      (f : ℕ)
      → IsHeld m f
      → t.frames.ref f + names (pte_at m.words pgdir (page_of va)) f
        ≡ m.frames.ref f + (if page == f then 1 else 0)
  pub freed :
      (f : ℕ)
      → IsHeld m f
      → names (pte_at m.words pgdir (page_of va)) f ≡ 1
      → t.frames.ref f ≡ 0
      → free_count t.frames f ≡ 1

-- What `page_insert` gives: no memory for a table and no change, or the new mapping.
abbrev pub Inserted : ℕ → ℕ → ℕ → ℕ → Memory → Option (ℕ × Memory) → Type 0
Inserted pgdir page va perm m result =
    (result ≡ some (e_nomem, m))
    ⊎ ((t : Memory) × (result ≡ some (0, t)) × IsInserted pgdir page va perm m t)

module _ (pgdir page va perm : ℕ) (m : Memory) (s : IsSpace pgdir m) (g : IsPage pgdir page m)
    (low : perm < 4096) (q : is_present (m.words pgdir (pgd_index va)) ≡ true) where
  abbrev table : ℕ
  table = frame_of (m.words pgdir (pgd_index va))

  -- The entry that `get_pte` found is changed.
  entered :
      (u : Memory)
      → IsShifted (m.words table (pte_index va)) (new_pte page perm) m u
      → write u.words table (pte_index va) (new_pte page perm)
        ≡ write m.words table (pte_index va) (new_pte page perm)
      → IsInserted pgdir page va perm m (set_word table (pte_index va) (new_pte page perm) u)
  entered u sh same =
      let i = pgd_index va in
      let j = pte_index va in
      let a : i < 1024 = omega arith in
      let b : j < 1024 = omega arith in
      let at = pte_at-here m.words pgdir i j b q in
      let named : frame_of (new_pte page perm) ≡ page =
        frame_of-new_pte page perm (omega (arith, g.held.fits, s.area.small)) low in
      let number : i * 1024 + j ≡ page_of va = omega arith in
      let changed =
        changed-IsSpace pgdir i j (new_pte page perm) m u s a b q
          (λ k. (rw named g.outside, rw named g.held)) (rw at sh) in
      let old_at : pte_at m.words pgdir (page_of va) ≡ m.words table j = rw number at at in
      record {
        space =
            subst (λ (w : ℕ → ℕ → ℕ). IsSpace pgdir (record u { words = w })) (sym same) changed;
        mapped = λ v c.
            let here = pte_at-write m.words pgdir s.tree i j (new_pte page perm) v a b c q in
            let there : pte_at (write m.words table j (new_pte page perm)) pgdir v
                ≡ (if v == page_of va then new_pte page perm else pte_at m.words pgdir v) =
              rw (sym number) here in
            subst
              (λ (w : ℕ → ℕ → ℕ).
                pte_at w pgdir v
                ≡ (if v == page_of va then new_pte page perm else pte_at m.words pgdir v))
              (sym same) there;
        refs =
            λ f h. rw (old_at, sym (names_new pgdir page perm i j m s g low a b q f)) (sh.refs f);
        freed = λ f h n z. sh.freed f h (rw old_at at n) z;
      }

-- The mapping is kept by the search for the entry.
later-IsInserted :
    (pgdir page va perm : ℕ) (m t u : Memory)
    → IsSameMap pgdir m t
    → IsKept pgdir m t
    → IsInserted pgdir page va perm t u
    → IsInserted pgdir page va perm m u
later-IsInserted pgdir page va perm m t u same k r =
    let here = same (page_of va) (omega arith) in
    record {
      space = r.space;
      mapped = λ v c. rw (sym (same v c)) (r.mapped v c);
      refs = λ f h. rw (sym here, sym (k.refs f h)) (r.refs f (k.held f h));
      freed = λ f h n z. r.freed f (k.held f h) (rw here n) z;
    }

-- The run, once the entry is found.
page_insert_run :
    (pgdir page va perm : ℕ) (m t u : Memory)
    → get_pte pgdir va true m
      ≡ some (some (frame_of (t.words pgdir (pgd_index va)), pte_index va), t)
    → replace page (frame_of (t.words pgdir (pgd_index va)), pte_index va) (page_ref_inc page t)
      ≡ some u
    → page_insert pgdir page va perm m
      ≡ some (
        0,
        set_word (frame_of (t.words pgdir (pgd_index va))) (pte_index va) (new_pte page perm) u,
      )
unfolding page_insert
page_insert_run pgdir page va perm m t u e run = rw (page_insert, e, run) refl

pub page_insert-Inserted :
    (pgdir page va perm : ℕ) (m : Memory)
    → IsSpace pgdir m
    → IsPage pgdir page m
    → perm < 4096
    → Inserted pgdir page va perm m (page_insert pgdir page va perm m)
unfolding page_insert
page_insert-Inserted pgdir page va perm m s g low = elim (get_pte-Looked pgdir va m s) [
  | inl e ↦ inl (rw (page_insert, e) refl)
  | inr (t, e, q, s', same, k) ↦
      let kept : IsPage pgdir page t = record {
        held = k.held page g.held;
        outside = k.outside page g.held g.outside;
        room = rw (k.refs page g.held) g.room;
      } in
      let i = pgd_index va in
      let (u, run, (sh, words)) =
        replace-Replaced pgdir page perm i (pte_index va) t s' kept low (omega arith) (omega arith)
          q in
      let same_words =
        words_after t u (frame_of (t.words pgdir i)) (pte_index va) (new_pte page perm) words in
      let w = set_word (frame_of (t.words pgdir i)) (pte_index va) (new_pte page perm) u in
      inr (
        w,
        page_insert_run pgdir page va perm m t u e run,
        later-IsInserted pgdir page va perm m t w same k
            (entered pgdir page va perm t s' kept low q u sh same_words),
      )
]
