-- ===== src/Vmm/Copy/Legal.antt =====
-- `copyLegalStr` copies exactly the strings that its caller may name.
use freak_os.Base.{
  ℕ, zero, suc, ◌+◌, ◌-◌, ◌%◌, ◌^◌, ◌≤◌, ◌<◌, ◌≡◌, refl, inl, inr, Bool, true, false, Option, some,
  ltb, ◌==◌, arith, if◌then◌else◌, Bool-cases, min,
}
use freak_os.Base.Word.{add32, pg_size}
use freak_os.Vmm.{MemMap}
use freak_os.Vmm.Copy.{Bytes, Outcome, strnlen, memcpy, copy_part, copy_parts, copy_legal_str}
use freak_os.Vmm.Copy.Strings.{Apart, memcpy_lem, strnlen_lem}
use freak_os.Vmm.Copy.Parts.{
  Copied, access-within, access-outside, top_of-lt, page_behind, first_part, prepend,
}
use freak_os.Vmm.Copy.Small.{can_access, check_user_mem-small}

-- A round of the loop whose check gave `ok`, on a part of `n` bytes.
copy_part-Copied :
    (ok : Bool) (mm : Option MemMap) (dst src maxn part n : ℕ) (m : Bytes)
    (go_on : Option MemMap → Outcome)
    → can_access mm src (add32 src n) ≡ ok
    → n ≡ min part maxn
    → 0 < part
    → part ≤ pg_size
    → (src + part) % pg_size ≡ 0
    → src < 2 ^ 32
    → Apart dst src maxn
    → (src + n < 2 ^ 32
        → n < maxn
        → Copied mm (dst + n) (src + n) (maxn - n) (memcpy dst src n m) (go_on mm))
    → Copied mm dst src maxn m (copy_part (some (ok, mm)) dst src maxn n m go_on)
unfolding copy_part
copy_part-Copied false mm dst src maxn part n m go_on acc size pos page al lt ap next = (
  refl,
  λ k h (z, nz, lo, hi).
      access-outside mm src n part (omega arith) (omega arith) page al acc lo (omega arith),
  λ a out. refl,
)
copy_part-Copied true mm dst src maxn part n m go_on acc size pos page al lt ap next =
    let (lo, hi) = access-within mm src n lt (omega arith) acc in
    let (le, nz, end) = strnlen_lem src n m in
    let alen = strnlen src n m in
    elim (Bool-cases (ltb alen n)) [
      | inl e ↦ rw e (
        refl,
        alen,
        ground arith,
        (end (ground arith), nz, lo, ground arith),
        memcpy_lem dst src (alen + 1) m (ground arith),
      )
      | inr e ↦
          let all : alen ≡ n = ground arith in
          elim (Bool-cases (n == maxn)) [
            | inl d ↦
                rw (e, d)
                  (
                    refl,
                    λ k h (z, nz', lo', hi'). absurd (ground (arith, nz (src + k))),
                    λ a out. refl,
                  )
            | inr d ↦
                rw (e, d)
                  (prepend mm dst src maxn n m ap (ground arith) (rw all at nz) lo (go_on mm)
                    (next (omega (arith, top_of-lt mm)) (ground arith)))
          ]
    ]

copy_parts-Copied :
    (fuel : ℕ) (mm : Option MemMap) (dst src maxn part : ℕ) (m : Bytes)
    → maxn < fuel
    → 0 < part
    → part ≤ pg_size
    → (src + part) % pg_size ≡ 0
    → src < 2 ^ 32
    → Apart dst src maxn
    → Copied mm dst src maxn m (copy_parts fuel mm dst src maxn part m)
unfolding copy_parts
copy_parts-Copied zero mm dst src maxn part m f pos page al lt ap = absurd (omega arith)
copy_parts-Copied (suc fuel) mm dst src maxn part m f pos page al lt ap =
    let n = if ltb maxn part then maxn else part in
    let size : n ≡ min part maxn = ground arith in
    rw (check_user_mem-small mm src n false (omega arith)) (
      copy_part-Copied (can_access mm src (add32 src n)) mm dst src maxn part n m _ refl size pos
        page al lt ap
        (λ low more.
          copy_parts-Copied fuel mm (dst + n) (src + n) (maxn - n) pg_size (memcpy dst src n m)
            (omega arith) (omega arith) (omega arith) (page_behind src part n al (ground arith)) low
            (ground arith)))

-- Where the buffer at `dst` shares no byte with the `maxn` bytes at `src`, `copyLegalStr` always returns.
-- It says 1 exactly where a string of fewer than `maxn` bytes stands at `src`, all of it with its 0 in the
-- part of the address space that the caller may name, the user's or without a map the kernel's; then just
-- the string with its 0 is copied. Else at most the `maxn` bytes at `dst` change. The map stays the same.
pub copy_legal_str-Copied :
    (mm : Option MemMap) (dst src maxn : ℕ) (m : Bytes)
    → src < 2 ^ 32
    → Apart dst src maxn
    → Copied mm dst src maxn m (copy_legal_str mm dst src maxn m)
unfolding copy_legal_str
copy_legal_str-Copied mm dst src maxn m lt ap = rw (first_part src lt) (
    copy_parts-Copied (maxn + 1) mm dst src maxn (pg_size - src % pg_size) m (omega arith)
      (omega arith) (omega arith) (omega arith) lt ap)
