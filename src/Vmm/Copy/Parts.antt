-- ===== src/Vmm/Copy/Parts.antt =====
-- The strings that a caller of `copyLegalStr` may name, and the parts that it copies them in.
use freak_os.Base.{
  ℕ, ◌+◌, ◌-◌, ◌%◌, ◌^◌, ◌≤◌, ◌<◌, ◌≡◌, ◌∙◌, sym, inl, inr, true, false, ◌&&◌, Option, none, some,
  ltb, leb, arith, Bool-cases,
}
use freak_os.Base.Word.{add32, sub32, round_down, pg_size}
use freak_os.Vmm.{
  MemMap, is_user_can_access, is_kernel_can_access, user_base, user_top, kernel_base, kernel_top,
}
use freak_os.Vmm.Copy.{Bytes, Outcome, memcpy}
use freak_os.Vmm.Copy.Strings.{Apart, copied, memcpy_lem, Nonzero}
use freak_os.Vmm.Copy.Small.{can_access}

-- The part of the address space that a caller with this map may name.
abbrev pub base_of : Option MemMap → ℕ
base_of none = kernel_base
base_of (some mm) = user_base

abbrev pub top_of : Option MemMap → ℕ
top_of none = kernel_top
top_of (some mm) = user_top

-- A string of `n` bytes and its 0, all of it in that part.
abbrev pub IsString : Option MemMap → Bytes → ℕ → ℕ → Type 0
IsString mm m src n =
    (m (src + n) ≡ 0) × Nonzero m src (src + n) × (base_of mm ≤ src) × (src + n < top_of mm)

-- What `copyLegalStr` gives on the bytes `m`.
abbrev pub Copied : Option MemMap → ℕ → ℕ → ℕ → Bytes → Outcome → Type 0
Copied mm dst src maxn m none = ⊥
Copied mm dst src maxn m (some (true, mm', m')) =
    (mm' ≡ mm)
    × (n : ℕ) × (n < maxn)
    × IsString mm m src n
    × ((a : ℕ) → m' a ≡ copied dst src (n + 1) m a)
Copied mm dst src maxn m (some (false, mm', m')) =
    (mm' ≡ mm)
    × ((n : ℕ) → n < maxn → IsString mm m src n → ⊥)
    × ((a : ℕ) → (leb dst a && ltb a (dst + maxn)) ≡ false → m' a ≡ m a)

pub top_of-lt : (mm : Option MemMap) → top_of mm < 2 ^ 32
top_of-lt none = omega arith
top_of-lt (some mm) = omega arith

pub page_behind :
    (src part n : ℕ) → (src + part) % pg_size ≡ 0 → n ≡ part → (src + n + pg_size) % pg_size ≡ 0
page_behind src part n al e = rw e (omega arith)

pub access-within :
    (mm : Option MemMap) (src n : ℕ)
    → src < 2 ^ 32
    → n ≤ pg_size
    → can_access mm src (add32 src n) ≡ true
    → (base_of mm ≤ src) × (src + n ≤ top_of mm)
unfolding is_user_can_access is_kernel_can_access
access-within none src n lt le ok = ground arith
access-within (some mm) src n lt le ok = ground arith

-- A part ends at the end of a page or of the string's room, so that it is refused only where its first
-- byte is out of bounds.
pub access-outside :
    (mm : Option MemMap) (src n part : ℕ)
    → 0 < n
    → n ≤ part
    → part ≤ pg_size
    → (src + part) % pg_size ≡ 0
    → can_access mm src (add32 src n) ≡ false
    → base_of mm ≤ src
    → src < top_of mm
    → ⊥
unfolding is_user_can_access is_kernel_can_access
access-outside none src n part pos le page al bad lo hi = ground arith
access-outside (some mm) src n part pos le page al bad lo hi = ground arith

pub first_part :
    (src : ℕ)
    → src < 2 ^ 32
    → sub32 (round_down (add32 src pg_size) pg_size) src ≡ pg_size - src % pg_size
unfolding round_down
first_part src lt = omega arith

-- A part that was copied, and the rest of the string behind it.
module _ (mm : Option MemMap) (dst src maxn p : ℕ) (m : Bytes) (ap : Apart dst src maxn)
    (lt : p < maxn) (nz : Nonzero m src (src + p)) (lo : base_of mm ≤ src) where
  -- The string behind the part is still there.
  kept : (a : ℕ) → src ≤ a → a < src + maxn → memcpy dst src p m a ≡ m a
  kept a l h = memcpy_lem dst src p m (ground arith) a ∙ ground arith

  IsString-behind :
      (n : ℕ)
      → p + n < maxn
      → IsString mm (memcpy dst src p m) (src + p) n
      → IsString mm m src (p + n)
  IsString-behind n h (z, nz', lo', hi) =
      let there : src + p + n ≡ src + (p + n) = omega arith in
      (
        rw (← there) (sym (kept (src + p + n) (omega arith) (omega arith)) ∙ z),
        λ a l k. elim (Bool-cases (ltb a (src + p))) [
          | inl e ↦ nz a l (ground arith)
          | inr e ↦ rw (kept a l (omega arith)) at (nz' a (ground arith) (omega arith))
        ],
        lo,
        omega arith,
      )

  IsString-ahead :
      (n : ℕ)
      → n < maxn
      → IsString mm m src n
      → (p ≤ n) × IsString mm (memcpy dst src p m) (src + p) (n - p)
  IsString-ahead n h (z, nz', lo', hi) = elim (Bool-cases (ltb n p)) [
    | inl e ↦ absurd (ground (arith, nz (src + n)))
    | inr e ↦
        let there : src + p + (n - p) ≡ src + n = ground arith in
        (
          ground arith,
          (
            rw there (kept (src + n) (omega arith) (omega arith) ∙ z),
            λ a l k. rw (kept a (omega arith) (omega arith)) (nz' a (omega arith) (omega arith)),
            omega arith,
            omega arith,
          ),
        )
  ]

  copied_twice :
      (n a : ℕ)
      → p + n < maxn
      → copied (dst + p) (src + p) (n + 1) (memcpy dst src p m) a ≡ copied dst src (p + n + 1) m a
  copied_twice n a h = elim (Bool-cases (leb (dst + p) a && ltb a (dst + p + (n + 1)))) [
    | inl e ↦
        let there : src + p + (a - (dst + p)) ≡ src + (a - dst) = ground arith in
        rw (e, there) (kept (src + (a - dst)) (ground arith) (ground arith) ∙ ground arith)
    | inr e ↦ rw e (memcpy_lem dst src p m (ground arith) a ∙ ground arith)
  ]

  pub prepend :
      (o : Outcome)
      → Copied mm (dst + p) (src + p) (maxn - p) (memcpy dst src p m) o
      → Copied mm dst src maxn m o
  prepend none c = c
  prepend (some (true, mm', m')) (e, n, h, s, all) = (
    e,
    p + n,
    omega arith,
    IsString-behind n (omega arith) s,
    λ a. all a ∙ copied_twice n a (omega arith),
  )
  prepend (some (false, mm', m')) (e, none_fits, frame) = (
    e,
    λ n h s. let (le, s') = IsString-ahead n h s in none_fits (n - p) (omega arith) s',
    λ a out. frame a (ground arith) ∙ memcpy_lem dst src p m (ground arith) a ∙ ground arith,
  )
