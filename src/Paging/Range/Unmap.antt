-- ===== src/Paging/Range/Unmap.antt =====
-- `unmap_range` unmaps the pages of a range, and only these.
use freak_os.Base.{
  ℕ, zero, suc, ◌+◌, ◌*◌, ◌-◌, ◌/◌, ◌%◌, ◌≤◌, ◌<◌, ◌≡◌, ◌∙◌, inl, inr, refl, sym, true, false,
  arith, ◌==◌, ◌&&◌, if◌then◌else◌, Bool-cases, leb, ltb, some, min,
}
use freak_os.Base.Word.{add32, round_down}
use freak_os.Vmm.Areas.{is_user_can_access_lem}
use freak_os.Paging.{Memory, is_present, frame_of, pgd_index, pte_index, pte_remove_page, get_pte}
use freak_os.Pmm.Single.{free_count}
use freak_os.Paging.Tree.{pte_at}
use freak_os.Paging.Count.{count_names, names, count_names-change}
use freak_os.Paging.Space.{IsHeld, IsSpace, page_of}
use freak_os.Paging.Replace.{pte_at-here}
use freak_os.Paging.Remove.{
  cleared, IsRemoved, pte_remove_page-IsRemoved, get_pte-no_create, absent-pte_at,
}
use freak_os.Paging.Range.Rounds.{rounds_more, rounds_last}
use freak_os.Paging.Range.{is_range, next_table, unmap_step, rounds, unmap_range}

-- From `m` to `t` the virtual pages from `lo` on below `hi` are unmapped; the references to a frame go down by
-- the mappings to it that are gone, and the last one frees it.
pub record IsUnmapped (pgdir lo hi : ℕ) (m t : Memory) : Type 0 where
  pub space : IsSpace pgdir t
  pub mapped :
      (v : ℕ)
      → v < 1048576
      → pte_at t.words pgdir v ≡ (
          if leb lo v && ltb v hi then cleared (pte_at m.words pgdir v) else pte_at m.words pgdir v)
  pub directory : (k : ℕ) → t.words pgdir k ≡ m.words pgdir k
  pub less : (x : ℕ) → t.frames.ref x ≤ m.frames.ref x
  pub held : (x : ℕ) → IsHeld m x → 0 < t.frames.ref x → IsHeld t x
  pub free : (x : ℕ) → free_count m.frames x ≡ 1 → free_count t.frames x ≡ 1
  pub freed :
      (x : ℕ) → IsHeld m x → 0 < m.frames.ref x → t.frames.ref x ≡ 0 → free_count t.frames x ≡ 1
  pub balance :
      (f : ℕ)
      → t.frames.ref f + count_names (pte_at m.words pgdir) f 1048576
        ≡ m.frames.ref f + count_names (pte_at t.words pgdir) f 1048576

empty-IsUnmapped :
    (pgdir lo hi : ℕ) (m : Memory)
    → IsSpace pgdir m
    → ((v : ℕ) → lo ≤ v → v < hi → cleared (pte_at m.words pgdir v) ≡ pte_at m.words pgdir v)
    → IsUnmapped pgdir lo hi m m
empty-IsUnmapped pgdir lo hi m s same = record {
  space = s;
  mapped = λ v c. elim (Bool-cases (leb lo v && ltb v hi)) [
    | inl h ↦ rw h (sym (same v (ground arith) (ground arith)))
    | inr h ↦ rw h refl
  ];
  directory = λ k. refl;
  less = λ x. omega arith;
  held = λ x h z. h;
  free = λ x f. f;
  freed = λ x h pos z. absurd (omega arith);
  balance = λ f. refl;
}

-- Two ranges that meet.
join-cases :
    (clear : ℕ → ℕ) (lo mid hi v x y : ℕ)
    → lo ≤ mid
    → mid ≤ hi
    → y ≡ (if leb lo v && ltb v mid then clear x else x)
    → (if leb mid v && ltb v hi then clear y else y) ≡ (if leb lo v && ltb v hi then clear x else x)
join-cases clear lo mid hi v x y a b e = ground arith

one-cases :
    (page v x y : ℕ)
    → (if v == page then x else y) ≡ (if leb page v && ltb v (page + 1) then x else y)
one-cases page v x y = ground arith

pub cleared-names : (e f : ℕ) → names (cleared e) f ≡ 0
cleared-names e f = elim (Bool-cases (is_present e)) [ inl h ↦ rw h refl | inr h ↦ rw (h, h) refl ]

join-IsUnmapped :
    (pgdir lo mid hi : ℕ) (m t u : Memory)
    → lo ≤ mid
    → mid ≤ hi
    → IsUnmapped pgdir lo mid m t
    → IsUnmapped pgdir mid hi t u
    → IsUnmapped pgdir lo hi m u
join-IsUnmapped pgdir lo mid hi m t u a b r r' = record {
  space = r'.space;
  mapped = λ v c.
      r'.mapped v c
      ∙ join-cases cleared lo mid hi v (pte_at m.words pgdir v) (pte_at t.words pgdir v) a b
          (r.mapped v c);
  directory = λ k. r'.directory k ∙ r.directory k;
  less = λ x. omega (arith, r.less x, r'.less x);
  held = λ x h z. r'.held x (r.held x h (omega (arith, r'.less x))) z;
  free = λ x f. r'.free x (r.free x f);
  freed = λ x h pos z. elim (Bool-cases (t.frames.ref x == 0)) [
    | inl e ↦ r'.free x (r.freed x h pos (ground arith))
    | inr e ↦
        let some_ref : 0 < t.frames.ref x = ground arith in
        r'.freed x (r.held x h some_ref) some_ref z
  ];
  balance = λ f. omega (arith, r.balance f, r'.balance f);
}

names-one : (e f : ℕ) → 0 < names e f → names e f ≡ 1
names-one e f h = ground arith

removed-IsUnmapped :
    (pgdir page : ℕ) (m t : Memory)
    → page < 1048576
    → IsRemoved pgdir page m t
    → IsUnmapped pgdir page (page + 1) m t
removed-IsUnmapped pgdir page m t c r = record {
  space = r.space;
  mapped = λ v d.
      r.mapped v d ∙ one-cases page v (cleared (pte_at m.words pgdir v)) (pte_at m.words pgdir v);
  directory = r.directory;
  less = λ x. omega (arith, r.refs x);
  held = r.held;
  free = r.free;
  freed = λ x h pos z.
      r.freed x h (names-one (pte_at m.words pgdir page) x (omega (arith, r.refs x))) z;
  balance = λ f.
      let change =
        count_names-change (pte_at m.words pgdir) (pte_at t.words pgdir) f 1048576 page c
          (λ u d n. r.mapped u d ∙ (rw n refl)) in
      let gone : names (pte_at t.words pgdir page) f ≡ 0 =
        let at : pte_at t.words pgdir page ≡ cleared (pte_at m.words pgdir page) =
          r.mapped page c ∙ ground arith in
        rw at (cleared-names (pte_at m.words pgdir page) f) in
      omega (arith, r.refs f, change, gone);
}

-- What a round does, for a range that ends at `end`: it goes on behind what it has unmapped.
record IsStep (pgdir start end next : ℕ) (m t : Memory) : Type 0 where
  on : start < next
  below : next ≤ start + 4194304
  aligned : next % 4096 ≡ 0
  done : IsUnmapped pgdir (start / 4096) (min (next / 4096) (end / 4096)) m t

-- There is no table: its pages are passed over.
skip-IsStep :
    (pgdir start end : ℕ) (m : Memory)
    → IsSpace pgdir m
    → start % 4096 ≡ 0
    → start < end
    → end ≤ 0xB000_0000
    → is_present (m.words pgdir (pgd_index start)) ≡ false
    → IsStep pgdir start end (next_table start) m m
unfolding round_down
skip-IsStep pgdir start end m s al lt top q = record {
  on = omega arith;
  below = omega arith;
  aligned = omega arith;
  done =
      empty-IsUnmapped pgdir (start / 4096) (min (next_table start / 4096) (end / 4096)) m s
        (λ v a b.
          let k : pgd_index start ≡ v / 1024 = omega arith in
          let zero_at = absent-pte_at pgdir v m (rw k at q) in rw zero_at refl);
}

-- There is a table: one page is done.
page-IsStep :
    (pgdir start end : ℕ) (m t : Memory)
    → start % 4096 ≡ 0
    → end % 4096 ≡ 0
    → start < end
    → end ≤ 0xB000_0000
    → IsUnmapped pgdir (page_of start) (page_of start + 1) m t
    → IsStep pgdir start end (add32 start 4096) m t
page-IsStep pgdir start end m t al al' lt top r =
    let lo : page_of start ≡ start / 4096 = omega arith in
    let hi : min (add32 start 4096 / 4096) (end / 4096) ≡ start / 4096 + 1 = omega arith in
    record {
      on = omega arith;
      below = omega arith;
      aligned = omega arith;
      done = rw hi (rw lo at r);
    }

single-IsUnmapped :
    (pgdir page : ℕ) (m : Memory)
    → IsSpace pgdir m
    → pte_at m.words pgdir page ≡ 0
    → IsUnmapped pgdir page (page + 1) m m
single-IsUnmapped pgdir page m s z =
    empty-IsUnmapped pgdir page (page + 1) m s
      (λ v a b. let is : v ≡ page = omega arith in rw (is, z) refl)

remove_round :
    (pgdir start : ℕ) (m t : Memory)
    → get_pte pgdir start false m
      ≡ some (some (frame_of (m.words pgdir (pgd_index start)), pte_index start), m)
    → (m.words (frame_of (m.words pgdir (pgd_index start))) (pte_index start) == 0) ≡ false
    → pte_remove_page (frame_of (m.words pgdir (pgd_index start)), pte_index start) m ≡ some t
    → unmap_step pgdir start m ≡ some (add32 start 4096, t)
unfolding unmap_step
remove_round pgdir start m t e z run = rw (unmap_step, e, z, run) refl

unmap_step-IsStep :
    (pgdir start end : ℕ) (m : Memory)
    → IsSpace pgdir m
    → start % 4096 ≡ 0
    → end % 4096 ≡ 0
    → start < end
    → end ≤ 0xB000_0000
    → (next : ℕ) × (t : Memory) × (unmap_step pgdir start m ≡ some (next, t))
      × IsStep pgdir start end next m t
unfolding unmap_step
unmap_step-IsStep pgdir start end m s al al' lt top = elim (get_pte-no_create pgdir start m s) [
  | inl (q, e) ↦
      let i = pgd_index start in
      let j = pte_index start in
      let number : i * 1024 + j ≡ page_of start = omega arith in
      let at = pte_at-here m.words pgdir i j (omega arith) q in
      elim (Bool-cases (m.words (frame_of (m.words pgdir i)) j == 0)) [
        | inl z ↦
            let zero_at : pte_at m.words pgdir (page_of start) ≡ 0 =
              rw (sym number, at) (ground arith) in
            (
              add32 start 4096,
              m,
              rw (unmap_step, e, z) refl,
              page-IsStep pgdir start end m m al al' lt top
                  (single-IsUnmapped pgdir (page_of start) m s zero_at),
            )
        | inr z ↦
            let (t, run, r) =
              pte_remove_page-IsRemoved pgdir i j m s (omega arith) (omega arith) q in
            (
              add32 start 4096,
              t,
              remove_round pgdir start m t e z run,
              page-IsStep pgdir start end m t al al' lt top
                  (removed-IsUnmapped pgdir (page_of start) m t (omega arith) (rw number at r)),
            )
      ]
  | inr (q, e) ↦
      (next_table start, m, rw (unmap_step, e) refl, skip-IsStep pgdir start end m s al lt top q)
]

-- Enough fuel for the loop.
rounds-IsUnmapped :
    (fuel pgdir start end : ℕ) (m : Memory)
    → IsSpace pgdir m
    → start % 4096 ≡ 0
    → end % 4096 ≡ 0
    → start < end
    → end ≤ 0xB000_0000
    → end ≤ start + fuel
    → (t : Memory) × (rounds (unmap_step pgdir) fuel start end m ≡ some t)
      × IsUnmapped pgdir (start / 4096) (end / 4096) m t
unfolding rounds
rounds-IsUnmapped zero pgdir start end m s al al' lt top enough = absurd (omega arith)
rounds-IsUnmapped (suc fuel) pgdir start end m s al al' lt top enough =
    let (next, t, run, r) = unmap_step-IsStep pgdir start end m s al al' lt top in
    elim (Bool-cases (ltb next end)) [
      | inl more ↦
          let (u, run', r') =
            rounds-IsUnmapped fuel pgdir next end t r.done.space r.aligned al' (ground arith) top
              (ground (arith, r.on)) in
          let behind : min (next / 4096) (end / 4096) ≡ next / 4096 = ground (arith) in
          (
            u,
            rounds_more (unmap_step pgdir) fuel start end next m t u run (omega (arith, r.on)) more
                run',
            join-IsUnmapped pgdir (start / 4096) (next / 4096) (end / 4096) m t u
                (omega (arith, r.on)) (ground arith) (rw behind at r.done) r',
          )
      | inr last ↦
          let behind : min (next / 4096) (end / 4096) ≡ end / 4096 = ground (arith) in
          (t, rounds_last (unmap_step pgdir) fuel start end next m t run last, rw behind at r.done)
    ]

pub unmap_range-IsUnmapped :
    (pgdir start end : ℕ) (m : Memory)
    → IsSpace pgdir m
    → is_range start end ≡ true
    → (t : Memory) × (unmap_range pgdir start end m ≡ some t)
      × IsUnmapped pgdir (start / 4096) (end / 4096) m t
unfolding unmap_range
unmap_range-IsUnmapped pgdir start end m s ok =
    let (low, lt, top) = is_user_can_access_lem start end (ground arith) in
    let (t, run, r) =
      rounds-IsUnmapped (end - start) pgdir start end m s (ground arith) (ground arith) lt top
        (omega arith) in
    (t, rw ok run, r)
