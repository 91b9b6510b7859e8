-- ===== src/Paging/Entry.antt =====
-- What the entries that `kern/mm/page.c` writes say: the frame, and that it is present.
use freak_os.Base.{ℕ, zero, suc, ◌/◌, ◌^◌, ◌<◌, ◌≤◌, ◌≡◌, ◌∙◌, sym, refl, true, arith}
use freak_os.Base.Bits.{bit_or_step}
use Prim.Native.Nat.{bit_or}
use freak_os.Paging.{is_present, frame_of, page2pa, new_pde, new_pte}

bit_or_none : (n a : ℕ) → a ≤ n → bit_or a 0 ≡ a
bit_or_none zero a h = let e : a ≡ 0 = omega arith in rw e refl
bit_or_none (suc n) a h = omega (arith, bit_or_step a 0, bit_or_none n (a / 2) (omega arith))

bit_or-div_eight : (a b : ℕ) → bit_or a b / 8 ≡ bit_or (a / 8) (b / 8)
bit_or-div_eight a b =
    let x = bit_or_step a b in
    let y = bit_or_step (a / 2) (b / 2) in
    let z = bit_or_step (a / 2 / 2) (b / 2 / 2) in
    let e : a / 2 / 2 / 2 ≡ a / 8 = omega arith in
    let f : b / 2 / 2 / 2 ≡ b / 8 = omega arith in rw (sym e, sym f) (omega arith)

-- The frame takes no part in an operation with flags.
frame_of-bit_or : (a b : ℕ) → b < 4096 → frame_of (bit_or a b) ≡ frame_of a
frame_of-bit_or a b h =
    let x = bit_or-div_eight a b in
    let y = bit_or-div_eight (a / 8) (b / 8) in
    let z = bit_or-div_eight (a / 8 / 8) (b / 8 / 8) in
    let w = bit_or-div_eight (a / 8 / 8 / 8) (b / 8 / 8 / 8) in
    let e : a / 8 / 8 / 8 / 8 ≡ a / 4096 = omega arith in
    let f : b / 8 / 8 / 8 / 8 ≡ 0 = omega arith in
    let last = bit_or_none (a / 4096) (a / 4096) (omega arith) in
    let whole : bit_or (a / 8 / 8 / 8 / 8) (b / 8 / 8 / 8 / 8) ≡ a / 4096 = rw (e, f) last in
    omega (arith, whole)

frame_of-page2pa : (page : ℕ) → page < 2 ^ 20 → frame_of (page2pa page) ≡ page
frame_of-page2pa page h = omega arith

pub frame_of-new_pte :
    (page perm : ℕ) → page < 2 ^ 20 → perm < 4096 → frame_of (new_pte page perm) ≡ page
frame_of-new_pte page perm h k =
    frame_of-bit_or (bit_or (page2pa page) 1) perm k
    ∙ frame_of-bit_or (page2pa page) 1 (omega arith)
    ∙ frame_of-page2pa page h

pub is_present-new_pte : (page perm : ℕ) → is_present (new_pte page perm) ≡ true
is_present-new_pte page perm =
    ground (arith, bit_or_step (bit_or (page2pa page) 1) perm, bit_or_step (page2pa page) 1)

pub frame_of-new_pde : (page : ℕ) → page < 2 ^ 20 → frame_of (new_pde page) ≡ page
frame_of-new_pde page h =
    frame_of-bit_or (bit_or (bit_or (page2pa page) 4) 2) 1 (omega arith)
    ∙ frame_of-bit_or (bit_or (page2pa page) 4) 2 (omega arith)
    ∙ frame_of-bit_or (page2pa page) 4 (omega arith)
    ∙ frame_of-page2pa page h

pub is_present-new_pde : (page : ℕ) → is_present (new_pde page) ≡ true
is_present-new_pde page = ground (arith, bit_or_step (bit_or (bit_or (page2pa page) 4) 2) 1)
