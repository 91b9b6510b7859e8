-- ===== src/AddressSpace/Teardown.antt =====
-- What is left of an address space after `exit_mmap`.
use freak_os.Base.{
  ℕ, ◌+◌, ◌/◌, ◌≤◌, ◌<◌, ◌≡◌, ◌∙◌, inl, inr, refl, Bool, true, false, arith, ◌==◌, ◌&&◌, ◌||◌,
  if◌then◌else◌, Bool-cases, leb, ltb, some, List, [], ◌∷◌, All,
}
use freak_os.Vmm.{Vma}
use freak_os.Pmm.Single.{free_count}
use freak_os.Paging.{Memory, is_present, frame_of}
use freak_os.Paging.Tree.{pte_at}
use freak_os.Paging.Count.{count_names, names, count_names-zero}
use freak_os.Paging.Space.{IsSpace, IsHeld}
use freak_os.Paging.Remove.{cleared}
use freak_os.Paging.Range.{is_range, unmap_range, exit_range}
use freak_os.Paging.Range.Unmap.{unmap_range-IsUnmapped, cleared-names}
use freak_os.Paging.Range.Exit.{exit_range-IsExited, between, table_end}
use freak_os.AddressSpace.{unmap_areas, exit_areas, exit_mmap}

-- The areas of a map, which `mm_map` makes of whole pages in the user's part.
abbrev pub AreUser : List Vma → Type 0
AreUser vmas = All (λ (v : Vma). is_range v.vm_start v.vm_end ≡ true) vmas

-- Whether an area holds a page.
abbrev pub page_in : List Vma → ℕ → Bool
page_in [] v = false
page_in (a ∷ rest) v = (leb (a.vm_start / 4096) v && ltb v (a.vm_end / 4096)) || page_in rest v

-- Whether an area touches a table.
abbrev pub table_in : List Vma → ℕ → Bool
table_in [] k = false
table_in (a ∷ rest) k = between (a.vm_start / 4194304) (table_end a.vm_end) k || table_in rest k

-- The pages of the areas are unmapped.
record IsBare (pgdir : ℕ) (vmas : List Vma) (m t : Memory) : Type 0 where
  space : IsSpace pgdir t
  mapped :
      (v : ℕ)
      → v < 1048576
      → pte_at t.words pgdir v
        ≡ (if page_in vmas v then cleared (pte_at m.words pgdir v) else pte_at m.words pgdir v)
  directory : (k : ℕ) → t.words pgdir k ≡ m.words pgdir k
  less : (x : ℕ) → t.frames.ref x ≤ m.frames.ref x
  held : (x : ℕ) → IsHeld m x → 0 < t.frames.ref x → IsHeld t x
  free : (x : ℕ) → free_count m.frames x ≡ 1 → free_count t.frames x ≡ 1
  freed : (x : ℕ) → IsHeld m x → 0 < m.frames.ref x → t.frames.ref x ≡ 0 → free_count t.frames x ≡ 1
  balance :
      (f : ℕ)
      → t.frames.ref f + count_names (pte_at m.words pgdir) f 1048576
        ≡ m.frames.ref f + count_names (pte_at t.words pgdir) f 1048576

cleared-cleared : (x : ℕ) → cleared (cleared x) ≡ cleared x
cleared-cleared x = elim (Bool-cases (is_present x)) [ inl h ↦ rw h refl | inr h ↦ rw (h, h) refl ]

-- Clearing an entry again changes nothing.
cleared-cases :
    (x y : ℕ) (b c : Bool)
    → y ≡ (if b then cleared x else x)
    → (if c then cleared y else y) ≡ (if b || c then cleared x else x)
cleared-cases x y true true e = rw e (cleared-cleared x)
cleared-cases x y true false e = e
cleared-cases x y false true e = rw e refl
cleared-cases x y false false e = e

unmap_areas_run :
    (pgdir : ℕ) (a : Vma) (vmas : List Vma) (m t : Memory)
    → unmap_range pgdir a.vm_start a.vm_end m ≡ some t
    → unmap_areas pgdir (a ∷ vmas) m ≡ unmap_areas pgdir vmas t
unfolding unmap_areas
unmap_areas_run pgdir a vmas m t e = rw (unmap_areas, e) refl

unmap_areas-IsBare :
    (pgdir : ℕ) (vmas : List Vma) (m : Memory)
    → IsSpace pgdir m
    → AreUser vmas
    → (t : Memory) × (unmap_areas pgdir vmas m ≡ some t) × IsBare pgdir vmas m t
unfolding unmap_areas
unmap_areas-IsBare pgdir [] m s u = (
  m,
  refl,
  record {
    space = s;
    mapped = λ v c. refl;
    directory = λ k. refl;
    less = λ x. omega arith;
    held = λ x h z. h;
    free = λ x f. f;
    freed = λ x h pos z. absurd (omega arith);
    balance = λ f. refl;
  },
)
unmap_areas-IsBare pgdir (a ∷ vmas) m s (ok, u) =
    let (t, run, r) = unmap_range-IsUnmapped pgdir a.vm_start a.vm_end m s ok in
    let (w, run', r') = unmap_areas-IsBare pgdir vmas t r.space u in
    (
      w,
      unmap_areas_run pgdir a vmas m t run ∙ run',
      record {
        space = r'.space;
        mapped = λ v c.
            r'.mapped v c
            ∙ cleared-cases (pte_at m.words pgdir v) (pte_at t.words pgdir v) _ (page_in vmas v)
                (r.mapped v c);
        directory = λ k. r'.directory k ∙ r.directory k;
        less = λ x. omega (arith, r.less x, r'.less x);
        held = λ x h z. r'.held x (r.held x h (omega (arith, r'.less x))) z;
        free = λ x f. r'.free x (r.free x f);
        freed = λ x h pos z. elim (Bool-cases (t.frames.ref x == 0)) [
          | inl e ↦ r'.free x (r.freed x h pos (ground arith))
          | inr e ↦
              let some_ref : 0 < t.frames.ref x = ground arith in
              r'.freed x (r.held x h some_ref) some_ref z
        ];
        balance = λ f. omega (arith, r.balance f, r'.balance f);
      },
    )

-- The tables that the areas touch are freed.
record IsStripped (pgdir : ℕ) (vmas : List Vma) (m t : Memory) : Type 0 where
  space : IsSpace pgdir t
  directory :
      (k : ℕ)
      → t.words pgdir k
        ≡ (if table_in vmas k && is_present (m.words pgdir k) then 0 else m.words pgdir k)
  mapped :
      (v : ℕ)
      → v < 1048576
      → pte_at t.words pgdir v ≡ (if table_in vmas (v / 1024) then 0 else pte_at m.words pgdir v)
  tables :
      (k : ℕ)
      → table_in vmas k ≡ true
      → is_present (m.words pgdir k) ≡ true
      → free_count t.frames (frame_of (m.words pgdir k)) ≡ 1
  free : (x : ℕ) → free_count m.frames x ≡ 1 → free_count t.frames x ≡ 1

exit_areas_run :
    (pgdir : ℕ) (a : Vma) (vmas : List Vma) (m t : Memory)
    → exit_range pgdir a.vm_start a.vm_end m ≡ some t
    → exit_areas pgdir (a ∷ vmas) m ≡ exit_areas pgdir vmas t
unfolding exit_areas
exit_areas_run pgdir a vmas m t e = rw (exit_areas, e) refl

exit_areas-IsStripped :
    (pgdir : ℕ) (vmas : List Vma) (m : Memory)
    → IsSpace pgdir m
    → AreUser vmas
    → (t : Memory) × (exit_areas pgdir vmas m ≡ some t) × IsStripped pgdir vmas m t
unfolding exit_areas
exit_areas-IsStripped pgdir [] m s u = (
  m,
  refl,
  record {
    space = s;
    directory = λ k. refl;
    mapped = λ v c. refl;
    tables = λ k c p. absurd (ground arith);
    free = λ x f. f;
  },
)
exit_areas-IsStripped pgdir (a ∷ vmas) m s (ok, u) =
    let (t, run, r) = exit_range-IsExited pgdir a.vm_start a.vm_end m s ok in
    let (w, run', r') = exit_areas-IsStripped pgdir vmas t r.space u in
    (
      w,
      exit_areas_run pgdir a vmas m t run ∙ run',
      record {
        space = r'.space;
        directory = λ k. r'.directory k ∙ ground (arith, r.directory k);
        mapped = λ v c. r'.mapped v c ∙ ground (arith, r.mapped v c);
        tables = λ k c p.
            elim (Bool-cases (between (a.vm_start / 4194304) (table_end a.vm_end) k)) [
              | inl h ↦ r'.free (frame_of (m.words pgdir k)) (r.tables k h p)
              | inr h ↦
                  let same : t.words pgdir k ≡ m.words pgdir k = ground (arith, r.directory k) in
                  rw same at (r'.tables k (ground arith) (rw same p))
            ];
        free = λ x f. r'.free x (r.free x f);
      },
    )

-- A page that an area holds is in a table that it touches.
page_in-table_in :
    (vmas : List Vma) (v : ℕ) → page_in vmas v ≡ true → table_in vmas (v / 1024) ≡ true
page_in-table_in [] v h = h
page_in-table_in (a ∷ vmas) v h = ground (arith, page_in-table_in vmas v)

-- All mappings to the frame are in the areas, and nothing else refers to it.
pub record IsOwned (pgdir : ℕ) (vmas : List Vma) (m : Memory) (x : ℕ) : Type 0 where
  pub held : IsHeld m x
  pub pos : 0 < m.frames.ref x
  pub alone : count_names (pte_at m.words pgdir) x 1048576 ≡ m.frames.ref x
  pub inside : (v : ℕ) → v < 1048576 → names (pte_at m.words pgdir v) x ≡ 1 → page_in vmas v ≡ true

-- What `exit_mmap` leaves.
pub record IsTornDown (pgdir : ℕ) (vmas : List Vma) (m t : Memory) : Type 0 where
  pub space : IsSpace pgdir t
  pub mapped :
      (v : ℕ)
      → v < 1048576
      → pte_at t.words pgdir v ≡ (if table_in vmas (v / 1024) then 0 else pte_at m.words pgdir v)
  pub tables :
      (k : ℕ)
      → table_in vmas k ≡ true
      → is_present (m.words pgdir k) ≡ true
      → free_count t.frames (frame_of (m.words pgdir k)) ≡ 1
  pub pages : (x : ℕ) → IsOwned pgdir vmas m x → free_count t.frames x ≡ 1

names-zero : (e f : ℕ) → (names e f ≡ 1 → ⊥) → names e f ≡ 0
names-zero e f n = elim (Bool-cases (names e f == 1)) [
  | inl h ↦ absurd (n (ground arith))
  | inr h ↦ ground arith
]

bare-unnamed :
    (pgdir : ℕ) (vmas : List Vma) (m t : Memory)
    → IsBare pgdir vmas m t
    → (x : ℕ) → IsOwned pgdir vmas m x
    → (v : ℕ) → v < 1048576
    → names (pte_at t.words pgdir v) x ≡ 0
bare-unnamed pgdir vmas m t r x o v c = elim (Bool-cases (page_in vmas v)) [
  | inl p ↦
      let at : pte_at t.words pgdir v ≡ cleared (pte_at m.words pgdir v) =
        r.mapped v c ∙ (rw p refl) in
      rw at (cleared-names (pte_at m.words pgdir v) x)
  | inr p ↦
      let at : pte_at t.words pgdir v ≡ pte_at m.words pgdir v = r.mapped v c ∙ (rw p refl) in
      rw at (names-zero (pte_at m.words pgdir v) x (λ e. ground (arith, o.inside v c e)))
]

bare-free :
    (pgdir : ℕ) (vmas : List Vma) (m t : Memory)
    → IsBare pgdir vmas m t
    → (x : ℕ) → IsOwned pgdir vmas m x
    → free_count t.frames x ≡ 1
bare-free pgdir vmas m t r x o =
    let none_left =
      count_names-zero (pte_at t.words pgdir) x 1048576 (bare-unnamed pgdir vmas m t r x o) in
    r.freed x o.held o.pos (omega (arith, r.balance x, none_left, o.alone))

exit_mmap_run :
    (pgdir : ℕ) (vmas : List Vma) (m t u : Memory)
    → unmap_areas pgdir vmas m ≡ some t
    → exit_areas pgdir vmas t ≡ some u
    → exit_mmap pgdir 0 vmas m ≡ some u
unfolding exit_mmap
exit_mmap_run pgdir vmas m t u e f = rw (e, f) refl

pub exit_mmap-IsTornDown :
    (pgdir : ℕ) (vmas : List Vma) (m : Memory)
    → IsSpace pgdir m
    → AreUser vmas
    → (t : Memory) × (exit_mmap pgdir 0 vmas m ≡ some t) × IsTornDown pgdir vmas m t
exit_mmap-IsTornDown pgdir vmas m s u =
    let (t, run, r) = unmap_areas-IsBare pgdir vmas m s u in
    let (w, run', r') = exit_areas-IsStripped pgdir vmas t r.space u in
    (
      w,
      exit_mmap_run pgdir vmas m t w run run',
      record {
        space = r'.space;
        mapped = λ v c. r'.mapped v c ∙ ground (arith, r.mapped v c, page_in-table_in vmas v);
        tables = λ k c p. let same = r.directory k in rw same at (r'.tables k c (rw same p));
        pages = λ x o. r'.free x (bare-free pgdir vmas m t r x o);
      },
    )
