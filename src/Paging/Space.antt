-- ===== src/Paging/Space.antt =====
-- An address space with the frames behind it.
use freak_os.Base.{ℕ, ◌/◌, ◌%◌, ◌≤◌, ◌<◌, ◌^◌, ◌≡◌, ◌⊎◌, true}
use freak_os.Base.Bits.{get_bit}
use freak_os.Pmm.Invariant.{IsArea}
use freak_os.Pmm.Single.{free_count, IsClean}
use freak_os.Paging.{Memory, is_present, frame_of}
use freak_os.Paging.Tree.{pte_at, IsTree, IsOutside}
use freak_os.Paging.Count.{count_names}

-- A frame that is taken and carries no flag.
pub record IsHeld (m : Memory) (x : ℕ) : Type 0 where
  pub fits : x < m.page_count
  pub used : free_count m.frames x ≡ 0
  pub clean : IsClean m.frames x

-- The directory, a table, or a page that is mapped.
abbrev pub IsNeeded : (ℕ → ℕ → ℕ) → ℕ → ℕ → Type 0
IsNeeded w pgdir x =
    (x ≡ pgdir)
    ⊎ (((i : ℕ) × (i < 1024) × (is_present (w pgdir i) ≡ true) × (x ≡ frame_of (w pgdir i)))
        ⊎ ((v : ℕ) × (v < 1048576)
            × (is_present (pte_at w pgdir v) ≡ true)
            × (x ≡ frame_of (pte_at w pgdir v))))

-- The allocator is valid, no frame in use is free, no frame that can be taken is reserved or
-- referred to, and a frame has
-- at least as many references as virtual pages are mapped to it.
pub record IsSpace (pgdir : ℕ) (m : Memory) : Type 0 where
  pub area : IsArea m.page_count m.frames
  pub tree : IsTree m.words pgdir
  pub open_pages : (x : ℕ) → free_count m.frames x ≡ 1 → get_bit (m.frames.flags x) 0 ≡ 0
  pub idle : (x : ℕ) → free_count m.frames x ≡ 1 → m.frames.ref x ≡ 0
  pub held : (x : ℕ) → IsNeeded m.words pgdir x → IsHeld m x
  pub counted : (f : ℕ) → count_names (pte_at m.words pgdir) f 1048576 ≤ m.frames.ref f
  pub bounded : (f : ℕ) → m.frames.ref f < 2 ^ 31

-- The number of the virtual page of an address.
abbrev pub page_of : ℕ → ℕ
page_of va = va / 4096 % 1048576

-- The entries of all virtual pages are the same.
abbrev pub IsSameMap : ℕ → Memory → Memory → Type 0
IsSameMap pgdir m t = (v : ℕ) → v < 1048576 → pte_at t.words pgdir v ≡ pte_at m.words pgdir v

-- What is in use and what is not in the tables stays so, with its references.
pub record IsKept (pgdir : ℕ) (m t : Memory) : Type 0 where
  pub pages : t.page_count ≡ m.page_count
  pub held : (x : ℕ) → IsHeld m x → IsHeld t x
  pub refs : (x : ℕ) → IsHeld m x → t.frames.ref x ≡ m.frames.ref x
  pub outside : (x : ℕ) → IsHeld m x → IsOutside m.words pgdir x → IsOutside t.words pgdir x
