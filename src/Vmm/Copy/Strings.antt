-- ===== src/Vmm/Copy/Strings.antt =====
-- What `strnlen` and `memcpy` give.
use freak_os.Base.{
  ℕ, zero, suc, ◌+◌, ◌-◌, ◌≤◌, ◌<◌, ◌≡◌, ◌⊎◌, ◌∙◌, inl, inr, false, ◌&&◌, ltb, leb, ◌==◌, arith,
  if◌then◌else◌, update, Bool-cases,
}
use freak_os.Vmm.Copy.{Bytes, strnlen_from, strnlen, memcpy}

-- Two ranges of `len` addresses that share none.
abbrev pub Apart : ℕ → ℕ → ℕ → Type 0
Apart dst src len = (dst + len ≤ src) ⊎ (src + len ≤ dst)

-- The bytes with `len` of them copied.
abbrev pub copied : ℕ → ℕ → ℕ → Bytes → Bytes
copied dst src len m a = if leb dst a && ltb a (dst + len) then m (src + (a - dst)) else m a

pub memcpy_lem :
    (dst src len : ℕ) (m : Bytes)
    → Apart dst src len
    → (a : ℕ) → memcpy dst src len m a ≡ copied dst src len m a
unfolding memcpy
memcpy_lem dst src zero m ap a = ground arith
memcpy_lem dst src (suc len) m ap a =
    let ap' : Apart (dst + 1) (src + 1) len = ground arith in
    memcpy_lem (dst + 1) (src + 1) len (update m dst (m src)) ap' a ∙ grind arith

-- No byte of the range is 0.
abbrev pub Nonzero : Bytes → ℕ → ℕ → Type 0
Nonzero m lo hi = (a : ℕ) → lo ≤ a → a < hi → (m a == 0) ≡ false

Nonzero-suc :
    (m : Bytes) (s k : ℕ)
    → (m s == 0) ≡ false
    → Nonzero m (s + 1) (s + 1 + k)
    → Nonzero m s (s + (k + 1))
Nonzero-suc m s k z nz a lo hi = elim (Bool-cases (a == s)) [
  | inl e ↦ let here : a ≡ s = ground arith in rw here z
  | inr e ↦ nz a (ground arith) (omega arith)
]

strnlen_from_lem :
    (s left cnt : ℕ) (m : Bytes)
    → (k : ℕ) × (strnlen_from s left cnt m ≡ cnt + k)
      × (k ≤ left)
      × Nonzero m s (s + k)
      × (k < left → m (s + k) ≡ 0)
unfolding strnlen_from
strnlen_from_lem s zero cnt m =
    (0, omega arith, omega arith, λ a lo hi. absurd (omega arith), λ h. absurd (omega arith))
strnlen_from_lem s (suc left) cnt m =
    let (k, e, le, nz, end) = strnlen_from_lem (s + 1) left (cnt + 1) m in
    elim (Bool-cases (m s == 0)) [
      | inl z ↦ (
        0,
        rw z (omega arith),
        omega arith,
        λ a lo hi. absurd (omega arith),
        λ h. let here : s + 0 ≡ s = omega arith in rw here (ground arith),
      )
      | inr z ↦ (
        k + 1,
        rw z (e ∙ omega arith),
        omega arith,
        Nonzero-suc m s k z nz,
        λ h. let there : s + (k + 1) ≡ s + 1 + k = omega arith in rw there (end (omega arith)),
      )
    ]

pub strnlen_lem :
    (s len : ℕ) (m : Bytes)
    → (strnlen s len m ≤ len)
      × Nonzero m s (s + strnlen s len m)
      × (strnlen s len m < len → m (s + strnlen s len m) ≡ 0)
unfolding strnlen
strnlen_lem s len m =
    let (k, e, le, nz, end) = strnlen_from_lem s len 0 m in
    let same : strnlen_from s len 0 m ≡ k = e ∙ omega arith in rw same (le, nz, end)
