-- ===== src/Vmm/Copy/Small.antt =====
-- What `checkUserMem` says of at most a page.
use freak_os.Base.{
  ℕ, ◌≤◌, ◌≡◌, refl, Bool, true, false, Option, none, some, arith, Bool-cases, inl, inr,
}
use freak_os.Base.Word.{add32, pg_size}
use freak_os.Vmm.{MemMap, is_user_can_access, is_kernel_can_access, check_user_mem}
use freak_os.Vmm.Check.{check_user_mem-unchecked}

-- The part of the address space that a caller with this map may name.
abbrev pub can_access : Option MemMap → ℕ → ℕ → Bool
can_access none start end = is_kernel_can_access start end
can_access (some mm) start end = is_user_can_access start end

user_refused :
    (mm : MemMap) (addr len : ℕ) (write : Bool)
    → is_user_can_access addr (add32 addr len) ≡ false
    → check_user_mem (some mm) addr len write ≡ some (false, some mm)
unfolding check_user_mem
user_refused mm addr len write bad = rw bad refl

below_user : (addr end : ℕ) → is_user_can_access addr end ≡ true → pg_size ≤ addr
unfolding is_user_can_access
below_user addr end ok = ground arith

kernel_check :
    (addr len : ℕ) (write : Bool)
    → check_user_mem none addr len write ≡ some (can_access none addr (add32 addr len), none)
unfolding check_user_mem
kernel_check addr len write = refl

-- The user's part begins above the first page, so that no area is looked at.
pub check_user_mem-small :
    (mm : Option MemMap) (addr len : ℕ) (write : Bool)
    → len ≤ pg_size
    → check_user_mem mm addr len write ≡ some (can_access mm addr (add32 addr len), mm)
check_user_mem-small none addr len write le = kernel_check addr len write
check_user_mem-small (some mm) addr len write le =
    elim (Bool-cases (is_user_can_access addr (add32 addr len))) [
      | inl ok ↦
          let low = below_user addr (add32 addr len) ok in
          rw ok (check_user_mem-unchecked mm addr len write ok (omega arith))
      | inr bad ↦ rw bad (user_refused mm addr len write bad)
    ]
