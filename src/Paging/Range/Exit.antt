-- ===== src/Paging/Range/Exit.antt =====
-- `exit_range` frees the tables of a range.
use freak_os.Base.{
  ℕ, zero, suc, ◌+◌, ◌-◌, ◌/◌, ◌%◌, ◌≤◌, ◌<◌, ◌≡◌, ◌∙◌, inl, inr, refl, Bool, true, false, arith,
  ◌==◌, ◌&&◌, if◌then◌else◌, Bool-cases, leb, ltb, some,
}
use freak_os.Base.Word.{add32, round_down}
use freak_os.Vmm.Areas.{is_user_can_access_lem}
use freak_os.Pmm.{Area, free_pages}
use freak_os.Pmm.Single.{free_count, IsReturned, free_pages-IsReturned}
use freak_os.Paging.{Memory, is_present, frame_of, is_frame, pgd_index, set_word}
use freak_os.Paging.Tree.{pte_at}
use freak_os.Paging.Space.{IsSpace}
use freak_os.Paging.Range.{is_range, exit_step, rounds, exit_range, pgde_map_nbyte}
use freak_os.Paging.Range.Rounds.{rounds_more, rounds_last}
use freak_os.Paging.Range.Shrink.{shrunk, shrunk-directory, shrunk-pte_at, shrunk-IsSpace}

-- The tables with an index from `lo` on below `hi`.
abbrev pub between : ℕ → ℕ → ℕ → Bool
between lo hi k = leb lo k && ltb k hi

-- From `m` to `t` these tables are gone, and their frames are free.
pub record IsExited (pgdir lo hi : ℕ) (m t : Memory) : Type 0 where
  pub space : IsSpace pgdir t
  pub directory :
      (k : ℕ)
      → t.words pgdir k
        ≡ (if between lo hi k && is_present (m.words pgdir k) then 0 else m.words pgdir k)
  pub mapped :
      (v : ℕ)
      → v < 1048576
      → pte_at t.words pgdir v ≡ (if between lo hi (v / 1024) then 0 else pte_at m.words pgdir v)
  pub tables :
      (k : ℕ)
      → between lo hi k ≡ true
      → is_present (m.words pgdir k) ≡ true
      → free_count t.frames (frame_of (m.words pgdir k)) ≡ 1
  pub free : (x : ℕ) → free_count m.frames x ≡ 1 → free_count t.frames x ≡ 1
  pub refs : (x : ℕ) → free_count t.frames x ≡ 0 → t.frames.ref x ≡ m.frames.ref x

join-IsExited :
    (pgdir lo mid hi : ℕ) (m t u : Memory)
    → lo ≤ mid
    → mid ≤ hi
    → IsExited pgdir lo mid m t
    → IsExited pgdir mid hi t u
    → IsExited pgdir lo hi m u
join-IsExited pgdir lo mid hi m t u a b r r' = record {
  space = r'.space;
  directory = λ k. r'.directory k ∙ ground (arith, r.directory k);
  mapped = λ v c. r'.mapped v c ∙ ground (arith, r.mapped v c);
  tables = λ k c p. elim (Bool-cases (ltb k mid)) [
    | inl h ↦ r'.free (frame_of (m.words pgdir k)) (r.tables k (ground arith) p)
    | inr h ↦
        let same : t.words pgdir k ≡ m.words pgdir k = ground (arith, r.directory k) in
        rw same at (r'.tables k (ground arith) (rw same p))
  ];
  free = λ x f. r'.free x (r.free x f);
  refs = λ x z. ground (arith, r'.refs x, r.refs x, r'.free x, r.space.area.blocks.single x);
}

skip-IsExited :
    (pgdir k : ℕ) (m : Memory)
    → IsSpace pgdir m
    → is_present (m.words pgdir k) ≡ false
    → IsExited pgdir k (k + 1) m m
skip-IsExited pgdir k m s q = record {
  space = s;
  directory = λ l. elim (Bool-cases (l == k)) [
    | inl h ↦ let is : l ≡ k = ground arith in rw (is, q) (ground arith)
    | inr h ↦ ground arith
  ];
  mapped = λ v c. elim (Bool-cases (v / 1024 == k)) [
    | inl h ↦ let is : v / 1024 ≡ k = ground arith in rw (is, q) (ground arith)
    | inr h ↦ ground arith
  ];
  tables = λ l c p. let is : l ≡ k = ground arith in absurd (ground arith);
  free = λ x f. f;
  refs = λ x z. refl;
}

shrunk-IsExited :
    (pgdir k : ℕ) (m : Memory) (a : Area) (s : IsSpace pgdir m) (b : k < 1024)
    (q : is_present (m.words pgdir k) ≡ true)
    (r : IsReturned m.page_count (frame_of (m.words pgdir k)) m.frames a)
    → IsExited pgdir k (k + 1) m (shrunk pgdir k m a s b q r)
shrunk-IsExited pgdir k m a s b q r = record {
  space = shrunk-IsSpace pgdir k m a s b q r;
  directory = λ l. ground (arith, shrunk-directory pgdir k m a s b q r l);
  mapped = λ v c. ground (arith, shrunk-pte_at pgdir k m a s b q r v c);
  tables = λ l c p.
      let is : l ≡ k = ground arith in rw is (ground (arith, r.freed (frame_of (m.words pgdir k))));
  free = λ x f. ground (arith, r.freed x);
  refs = λ x z. ground (arith, r.freed x, r.refs x);
}

exit_step_run :
    (pgdir start : ℕ) (m : Memory) (a : Area)
    → is_present (m.words pgdir (pgd_index start)) ≡ true
    → is_frame m (frame_of (m.words pgdir (pgd_index start))) ≡ true
    → free_pages (frame_of (m.words pgdir (pgd_index start))) 1 m.frames ≡ some a
    → exit_step pgdir start m
      ≡ some
          (add32 start pgde_map_nbyte, set_word pgdir (pgd_index start) 0 (record m { frames = a }))
unfolding exit_step
exit_step_run pgdir start m a q fits e = rw (exit_step, q, fits, e) refl

exit_step-IsExited :
    (pgdir start : ℕ) (m : Memory)
    → IsSpace pgdir m
    → (t : Memory) × (exit_step pgdir start m ≡ some (add32 start pgde_map_nbyte, t))
      × IsExited pgdir (pgd_index start) (pgd_index start + 1) m t
unfolding exit_step
exit_step-IsExited pgdir start m s =
    let k = pgd_index start in
    elim (Bool-cases (is_present (m.words pgdir k))) [
      | inl q ↦
          let h = s.held _ (inr (inl (k, omega arith, q, refl))) in
          let (a, e, r) =
            free_pages-IsReturned m.page_count (frame_of (m.words pgdir k)) m.frames s.area h.fits
              h.used h.clean in
          (
            shrunk pgdir k m a s (omega arith) q r,
            exit_step_run pgdir start m a q (ground (arith, h.fits)) e,
            shrunk-IsExited pgdir k m a s (omega arith) q r,
          )
      | inr q ↦ (m, rw q refl, skip-IsExited pgdir k m s q)
    ]

-- The first index behind a range that ends at `end`.
abbrev pub table_end : ℕ → ℕ
table_end end = (end + 4194303) / 4194304

rounds-IsExited :
    (fuel pgdir start end lo : ℕ) (m : Memory)
    → IsSpace pgdir m
    → start / 4194304 ≡ lo
    → start % 4194304 ≡ 0
    → start < end
    → end ≤ 0xB000_0000
    → end ≤ start + fuel
    → (t : Memory) × (rounds (exit_step pgdir) fuel start end m ≡ some t)
      × IsExited pgdir lo (table_end end) m t
rounds-IsExited zero pgdir start end lo m s q al lt top enough = absurd (omega arith)
rounds-IsExited (suc fuel) pgdir start end lo m s q al lt top enough =
    let (t, run, r) = exit_step-IsExited pgdir start m s in
    let next = add32 start pgde_map_nbyte in
    let index : pgd_index start ≡ lo = omega arith in
    let r1 = rw index at r in
    elim (Bool-cases (ltb next end)) [
      | inl more ↦
          let (u, run', r') =
            rounds-IsExited fuel pgdir next end (lo + 1) t r.space (omega arith) (omega arith)
              (ground arith) top (omega arith) in
          (
            u,
            rounds_more (exit_step pgdir) fuel start end next m t u run (omega arith) more run',
            join-IsExited pgdir lo (lo + 1) (table_end end) m t u (omega arith) (omega arith) r1 r',
          )
      | inr last ↦
          let stop : next < end → ⊥ = λ h. ground arith in
          let behind : table_end end ≡ lo + 1 = omega (arith) in
          (t, rounds_last (exit_step pgdir) fuel start end next m t run last, rw behind r1)
    ]

-- On a valid address space and a range of whole pages of the user's part, `exit_range` ends without a panic. It
-- leaves a valid space in which just the tables that the range touches are gone from the directory, with
-- what they mapped, and their frames are free.
pub exit_range-IsExited :
    (pgdir start end : ℕ) (m : Memory)
    → IsSpace pgdir m
    → is_range start end ≡ true
    → (t : Memory) × (exit_range pgdir start end m ≡ some t)
      × IsExited pgdir (start / 4194304) (table_end end) m t
unfolding exit_range round_down
exit_range-IsExited pgdir start end m s ok =
    let (low, lt, top) = is_user_can_access_lem start end (ground arith) in
    let first = round_down start pgde_map_nbyte in
    let (t, run, r) =
      rounds-IsExited (end - first) pgdir first end (start / 4194304) m s (omega arith)
        (omega arith) (omega arith) top (omega arith) in
    (t, rw ok run, r)
