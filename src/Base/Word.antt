-- ===== src/Base/Word.antt =====
-- The kernel's `uint32_t`, and the macros of `kern/include/types.h` and `kern/include/mm.h` on it.
use Prim.Native.Nat.{ℕ, ◌+◌, ◌-◌, ◌%◌, ◌^◌}

abbrev pub u32_mod : ℕ
u32_mod = 2 ^ 32

-- `uint32_t` a + b and a - b.
abbrev pub add32 : ℕ → ℕ → ℕ
add32 a b = (a + b) % 2 ^ 32

abbrev pub sub32 : ℕ → ℕ → ℕ
sub32 a b = (a + 2 ^ 32 - b) % 2 ^ 32

abbrev pub pg_size : ℕ
pg_size = 4096

-- `ROUNDDOWN`: the subtraction cannot wrap.
unfoldable pub round_down : ℕ → ℕ → ℕ
round_down a n = a - a % n

-- `ROUNDUP`: both the addition and the subtraction are those of `size_t`.
unfoldable pub round_up : ℕ → ℕ → ℕ
unfolding round_down
round_up a n = round_down (sub32 (add32 a n) 1) n
