-- ===== src/Paging/Tree.antt =====
-- The two levels of tables as a tree, and the entry that stands for a virtual page.
use freak_os.Base.{
  ℕ, ◌+◌, ◌*◌, ◌/◌, ◌%◌, ◌<◌, ◌≡◌, ◌∙◌, inl, inr, refl, true, false, arith, ◌==◌, if◌then◌else◌,
  update, Bool-cases,
}
use freak_os.Paging.{is_present, frame_of}

-- The entry for the virtual page `v`; 0 where there is no table.
abbrev pub pte_at : (ℕ → ℕ → ℕ) → ℕ → ℕ → ℕ
pte_at w pgdir v =
    let d = w pgdir (v / 1024) in if is_present d then w (frame_of d) (v % 1024) else 0

-- A frame that is neither the directory nor a table.
pub record IsOutside (w : ℕ → ℕ → ℕ) (pgdir x : ℕ) : Type 0 where
  pub directory : (x == pgdir) ≡ false
  pub table :
      (i : ℕ) → i < 1024 → is_present (w pgdir i) ≡ true → (x == frame_of (w pgdir i)) ≡ false

-- No frame is used twice as a table, and none that is used as a table or the directory is mapped.
pub record IsTree (w : ℕ → ℕ → ℕ) (pgdir : ℕ) : Type 0 where
  pub below :
      (i : ℕ) → i < 1024 → is_present (w pgdir i) ≡ true → (frame_of (w pgdir i) == pgdir) ≡ false
  pub apart :
      (i j : ℕ)
      → i < 1024
      → j < 1024
      → (i == j) ≡ false
      → is_present (w pgdir i) ≡ true
      → is_present (w pgdir j) ≡ true
      → (frame_of (w pgdir i) == frame_of (w pgdir j)) ≡ false
  pub leaf :
      (v : ℕ)
      → v < 1048576
      → is_present (pte_at w pgdir v) ≡ true
      → IsOutside w pgdir (frame_of (pte_at w pgdir v))

-- The words after a write to one entry of a frame.
abbrev pub write : (ℕ → ℕ → ℕ) → ℕ → ℕ → ℕ → ℕ → ℕ → ℕ
write w frame index e = update w frame (update (w frame) index e)

module _ (w : ℕ → ℕ → ℕ) (pgdir : ℕ) (r : IsTree w pgdir) where
  -- A write to a table changes the entry of one virtual page.
  pub pte_at-write :
      (i j e v : ℕ)
      → i < 1024
      → j < 1024
      → v < 1048576
      → is_present (w pgdir i) ≡ true
      → pte_at (write w (frame_of (w pgdir i)) j e) pgdir v
        ≡ (if v == i * 1024 + j then e else pte_at w pgdir v)
  pte_at-write i j e v a b c p =
      let d = r.below i a p in
      let kept : (write w (frame_of (w pgdir i)) j e) pgdir ≡ w pgdir = ground arith in
      elim (Bool-cases (i == v / 1024)) [
        | inl h ↦ ground (arith, d)
        | inr h ↦ elim (Bool-cases (is_present (w pgdir (v / 1024)))) [
          | inl q ↦ ground (arith, r.apart i (v / 1024))
          | inr q ↦ ground arith
        ]
      ]

  pub write-directory :
      (i j e k : ℕ)
      → i < 1024
      → is_present (w pgdir i) ≡ true
      → write w (frame_of (w pgdir i)) j e pgdir k ≡ w pgdir k
  write-directory i j e k a p = ground (arith, r.below i a p)

  pub write-IsTree :
      (i j e : ℕ)
      → i < 1024
      → j < 1024
      → is_present (w pgdir i) ≡ true
      → (is_present e ≡ true → IsOutside w pgdir (frame_of e))
      → IsTree (write w (frame_of (w pgdir i)) j e) pgdir
  write-IsTree i j e a b p out =
      let same = λ (k : ℕ). write-directory i j e k a p in
      let outside = λ (x : ℕ) (o : IsOutside w pgdir x).
        (let moved : IsOutside (write w (frame_of (w pgdir i)) j e) pgdir x = record {
          directory = o.directory;
          table = λ k c q. rw (same k) (o.table k c (rw (same k) at q));
        } in
          moved) in
      record {
        below = λ k c q. rw (same k) (r.below k c (rw (same k) at q));
        apart = λ k l c d n q s.
            rw (same k, same l) (r.apart k l c d n (rw (same k) at q) (rw (same l) at s));
        leaf = λ v c q.
            let at = pte_at-write i j e v a b c p in
            elim (Bool-cases (v == i * 1024 + j)) [
              | inl h ↦
                  let new : pte_at (write w (frame_of (w pgdir i)) j e) pgdir v ≡ e =
                    at ∙ (rw h refl) in
                  rw new (outside (frame_of e) (out (rw new at q)))
              | inr h ↦
                  let old : pte_at (write w (frame_of (w pgdir i)) j e) pgdir v ≡ pte_at w pgdir v =
                    at ∙ (rw h refl) in
                  rw old (outside (frame_of (pte_at w pgdir v)) (r.leaf v c (rw old at q)))
            ];
      }
