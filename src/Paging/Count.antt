-- ===== src/Paging/Count.antt =====
-- How many virtual pages are mapped to a frame.
use freak_os.Base.{
  ℕ, zero, suc, ◌+◌, ◌≤◌, ◌<◌, ◌≡◌, refl, false, arith, ◌==◌, ◌&&◌, Bool-cases, inl, inr,
  if◌then◌else◌,
}
use freak_os.Paging.{is_present, frame_of}

-- Whether an entry names the frame.
abbrev pub names : ℕ → ℕ → ℕ
names e f = if is_present e && (frame_of e == f) then 1 else 0

-- The entries of the virtual pages below `n` that name the frame.
unfoldable pub count_names : (ℕ → ℕ) → ℕ → ℕ → ℕ
count_names p f zero = 0
count_names p f (suc n) = names (p n) f + count_names p f n

pub count_names-agree :
    (p q : ℕ → ℕ) (f n : ℕ) → ((v : ℕ) → v < n → q v ≡ p v) → count_names q f n ≡ count_names p f n
unfolding count_names
count_names-agree p q f zero same = refl
count_names-agree p q f (suc n) same =
    rw (same n (omega arith), count_names-agree p q f n (λ v h. same v (omega arith))) refl

-- Changing one entry takes the old name away and adds the new one.
pub count_names-change :
    (p q : ℕ → ℕ) (f n v : ℕ)
    → v < n
    → ((u : ℕ) → u < n → (u == v) ≡ false → q u ≡ p u)
    → count_names q f n + names (p v) f ≡ count_names p f n + names (q v) f
unfolding count_names
count_names-change p q f zero v h same = absurd (omega arith)
count_names-change p q f (suc n) v h same = elim (Bool-cases (v == n)) [
  | inl e ↦
      let k : v ≡ n = ground arith in
      let rest = count_names-agree p q f n (λ u i. same u (omega arith) (ground arith)) in
      rw (k, rest) (omega arith)
  | inr e ↦
      let rest = count_names-change p q f n v (ground arith) (λ u i. same u (omega arith)) in
      rw (same n (omega arith) (ground arith)) (omega (arith, rest))
]

pub names-le-count_names : (p : ℕ → ℕ) (f n v : ℕ) → v < n → names (p v) f ≤ count_names p f n
unfolding count_names
names-le-count_names p f zero v h = absurd (omega arith)
names-le-count_names p f (suc n) v h = elim (Bool-cases (v == n)) [
  | inl e ↦ let k : v ≡ n = ground arith in rw k (omega arith)
  | inr e ↦ omega (arith, names-le-count_names p f n v (ground arith))
]

pub count_names-zero :
    (p : ℕ → ℕ) (f n : ℕ) → ((v : ℕ) → v < n → names (p v) f ≡ 0) → count_names p f n ≡ 0
unfolding count_names
count_names-zero p f zero none = refl
count_names-zero p f (suc n) none =
    omega (arith, none n (omega arith), count_names-zero p f n (λ v h. none v (omega arith)))

pub count_names-le :
    (p q : ℕ → ℕ) (f n : ℕ)
    → ((v : ℕ) → v < n → names (q v) f ≤ names (p v) f)
    → count_names q f n ≤ count_names p f n
unfolding count_names
count_names-le p q f zero le = omega arith
count_names-le p q f (suc n) le =
    omega (arith, le n (omega arith), count_names-le p q f n (λ v h. le v (omega arith)))
