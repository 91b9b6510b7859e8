-- ===== src/Paging/Grow.antt =====
-- A new, empty table: the directory gets an entry, and no virtual page changes.
use freak_os.Base.{
  ℕ, ◌/◌, ◌<◌, ◌≡◌, ◌⊎◌, ◌∙◌, inl, inr, refl, true, false, arith, ◌==◌, if◌then◌else◌, update,
  Bool-cases,
}
use freak_os.Paging.{is_present, frame_of}
use freak_os.Paging.Tree.{pte_at, IsTree, IsOutside, write}

-- The directory after it: `d` stands at the index `i` and names the cleared frame `p`.
abbrev pub grow : (ℕ → ℕ → ℕ) → ℕ → ℕ → ℕ → ℕ → ℕ → ℕ → ℕ
grow w pgdir i d p = write (update w p (λ k. 0)) pgdir i d

module _ (w : ℕ → ℕ → ℕ) (pgdir : ℕ) (r : IsTree w pgdir) (i d p : ℕ) (a : i < 1024)
    (absent : is_present (w pgdir i) ≡ false) (present : is_present d ≡ true)
    (at_p : frame_of d ≡ p) (out : IsOutside w pgdir p)
    (unmapped : (v : ℕ)
      → v < 1048576
      → is_present (pte_at w pgdir v) ≡ true
      → (frame_of (pte_at w pgdir v) == p) ≡ false) where
  pub grow-directory : (k : ℕ) → grow w pgdir i d p pgdir k ≡ (if k == i then d else w pgdir k)
  grow-directory k = ground (arith, out.directory)

  pub pte_at-grow : (v : ℕ) → v < 1048576 → pte_at (grow w pgdir i d p) pgdir v ≡ pte_at w pgdir v
  pte_at-grow v c = elim (Bool-cases (v / 1024 == i)) [
    | inl h ↦
        let here : grow w pgdir i d p pgdir (v / 1024) ≡ d =
          grow-directory (v / 1024) ∙ (rw h refl) in
        let k : v / 1024 ≡ i = ground arith in
        rw (here, present, k, absent) (ground (arith, out.directory))
    | inr h ↦
        let there : grow w pgdir i d p pgdir (v / 1024) ≡ w pgdir (v / 1024) =
          grow-directory (v / 1024) ∙ (rw h refl) in
        elim (Bool-cases (is_present (w pgdir (v / 1024)))) [
          | inl q ↦
              let o = out.table (v / 1024) (omega arith) q in
              let b = r.below (v / 1024) (omega arith) q in rw (there, q) (ground arith)
          | inr q ↦ rw (there, q) refl
        ]
  ]

  -- The new entry of the directory, or one that stays.
  pub entry-cases :
      (k : ℕ)
      → ((k ≡ i) × (grow w pgdir i d p pgdir k ≡ d)) ⊎ (grow w pgdir i d p pgdir k ≡ w pgdir k)
  entry-cases k = elim (Bool-cases (k == i)) [
    | inl h ↦ inl (ground arith, grow-directory k ∙ (rw h refl))
    | inr h ↦ inr (grow-directory k ∙ (rw h refl))
  ]

  -- What is outside stays outside, but for the new table.
  pub grow-IsOutside :
      (x : ℕ) → IsOutside w pgdir x → (x == p) ≡ false → IsOutside (grow w pgdir i d p) pgdir x
  grow-IsOutside x o n = record {
    directory = o.directory;
    table = λ k c q. elim (entry-cases k) [
      | inl (h, new) ↦ rw (new, at_p) n
      | inr old ↦ rw old (o.table k c (rw old at q))
    ];
  }

  pub grow-IsTree : IsTree (grow w pgdir i d p) pgdir
  grow-IsTree = record {
    below = λ k c q. elim (entry-cases k) [
      | inl (h, new) ↦ rw (new, at_p) out.directory
      | inr old ↦ rw old (r.below k c (rw old at q))
    ];
    apart = λ k l c e n q s. elim (entry-cases k) [
      | inl (h, new) ↦ elim (entry-cases l) [
        | inl (g, other) ↦ absurd (ground arith)
        | inr old ↦ rw (new, old, at_p) (out.table l e (rw old at s))
      ]
      | inr old ↦ elim (entry-cases l) [
        | inl (g, other) ↦ rw (old, other, at_p) (ground (arith, out.table k c (rw old at q)))
        | inr old' ↦ rw (old, old') (r.apart k l c e n (rw old at q) (rw old' at s))
      ]
    ];
    leaf = λ v c q.
        let same = pte_at-grow v c in
        let old = rw same at q in
        rw same (grow-IsOutside (frame_of (pte_at w pgdir v)) (r.leaf v c old) (unmapped v c old));
  }
