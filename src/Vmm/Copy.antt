-- ===== src/Vmm/Copy.antt =====
-- The copies between user and kernel of `kern/mm/vmm.c`, with `strnlen` and `memcpy` of
-- `kern/include/string.h`.
--
-- The bytes that the running address space maps are a function of the address. Each result is `none`
-- when the fuel runs out, else the C result with the map, whose cache a check may change, and the bytes.
pub mod Strings
pub mod Small
pub mod Parts
pub mod Legal
mod Tests
use freak_os.Base.{
  ℕ, zero, suc, ◌+◌, ◌-◌, Bool, true, false, Option, none, some, ltb, ◌==◌, if◌then◌else◌, update,
}
use freak_os.Base.Word.{add32, sub32, round_down, pg_size}
use mathlib.Core.Option as Opt
use freak_os.Vmm.{MemMap, check_user_mem}

abbrev pub Bytes : Type 0
Bytes = ℕ → ℕ

abbrev pub Outcome : Type 0
Outcome = Option (Bool × Option MemMap × Bytes)

-- The loop of `strnlen`, with `left` rounds until `cnt` is `len`.
pub strnlen_from : ℕ → ℕ → ℕ → Bytes → ℕ
strnlen_from s zero cnt m = cnt
strnlen_from s (suc left) cnt m =
    let rest = strnlen_from (s + 1) left (cnt + 1) m in if m s == 0 then cnt else rest

pub strnlen : ℕ → ℕ → Bytes → ℕ
strnlen s len m = strnlen_from s len 0 m

unfoldable pub memcpy : ℕ → ℕ → ℕ → Bytes → Bytes
memcpy dest src zero m = m
memcpy dest src (suc len) m = memcpy (dest + 1) (src + 1) len (update m dest (m src))

-- What a check that was made leads to: the copy only where it said yes.
abbrev pub copy_checked : ℕ → ℕ → ℕ → Bytes → Option (Bool × Option MemMap) → Outcome
copy_checked dst src len m o =
    Opt.map (λ (ok, mm'). (ok, mm', if ok then memcpy dst src len m else m)) o

unfoldable pub copy_from_user : Option MemMap → ℕ → ℕ → ℕ → Bool → Bytes → Outcome
copy_from_user mm dst src len writable m =
    copy_checked dst src len m (check_user_mem mm src len writable)

unfoldable pub copy_to_user : Option MemMap → ℕ → ℕ → ℕ → Bytes → Outcome
copy_to_user mm dst src len m = copy_checked dst src len m (check_user_mem mm dst len true)

-- The rest of a round of `copyLegalStr` after its check; `go_on` is the next round.
pub copy_part :
    Option (Bool × Option MemMap) → ℕ → ℕ → ℕ → ℕ → Bytes → (Option MemMap → Outcome) → Outcome
copy_part none dst src maxn part m go_on = none
copy_part (some (false, mm)) dst src maxn part m go_on = some (false, mm, m)
copy_part (some (true, mm)) dst src maxn part m go_on =
    let alen = strnlen src part m in
    let rest = go_on mm in
    if ltb alen part
    then some (true, mm, memcpy dst src (alen + 1) m)
    else if part == maxn
    then some (false, mm, m)
    else rest

-- The loop of `copyLegalStr`.
pub copy_parts : ℕ → Option MemMap → ℕ → ℕ → ℕ → ℕ → Bytes → Outcome
copy_parts zero mm dst src maxn part m = none
copy_parts (suc fuel) mm dst src maxn part m =
    let n = if ltb maxn part then maxn else part in
    copy_part (check_user_mem mm src n false) dst src maxn n m
      (λ mm'. copy_parts fuel mm' (dst + n) (src + n) (maxn - n) pg_size (memcpy dst src n m))

pub copy_legal_str : Option MemMap → ℕ → ℕ → ℕ → Bytes → Outcome
copy_legal_str mm dst src maxn m =
    let part = sub32 (round_down (add32 src pg_size) pg_size) src in
    copy_parts (maxn + 1) mm dst src maxn part m
