-- ===== src/PageFault/Handle.antt =====
-- What a page fault leads to.
use freak_os.Base.{ℕ, ◌<◌, ◌≡◌, ◌⊎◌, true, false, ◌==◌, if◌then◌else◌, Option, some, none}
use freak_os.Vmm.{Vma, MemMap, find_vma, scan, e_inval, e_nomem}
use freak_os.Paging.{Memory, is_present, new_pte}
use freak_os.Paging.Tree.{pte_at}
use freak_os.Paging.Space.{IsSpace, IsSameMap, page_of}
use freak_os.PageFault.{allows, perm_of, with_map}

-- The virtual page `v` is mapped to a frame that has this one reference.
pub record IsFilled (pgdir v perm : ℕ) (m t : Memory) : Type 0 where
  pub frame : ℕ
  pub space : IsSpace pgdir t
  pub mapped :
      (u : ℕ)
      → u < 1048576
      → pte_at t.words pgdir u ≡ (if u == v then new_pte frame perm else pte_at m.words pgdir u)
  pub ref : t.frames.ref frame ≡ 1

-- A page in the address space is a panic, an entry for a page that was swapped out is refused, and an empty
-- entry is filled while there is memory.
abbrev pub Filled : ℕ → ℕ → ℕ → Memory → Option (ℕ × Memory) → Type 0
Filled pgdir v perm m result =
    ((result ≡ none) × (is_present (pte_at m.words pgdir v) ≡ true))
    ⊎ (((t : Memory) × (result ≡ some (e_nomem, t)) × IsSpace pgdir t × IsSameMap pgdir m t)
        ⊎ ((t : Memory) × (result ≡ some (0, t))
            × (pte_at m.words pgdir v ≡ 0)
            × IsFilled pgdir v perm m t))

-- What the handler gives: no area holds the address or its flags forbid the access, and nothing changes, or
-- the page is filled in with the permissions of the area.
abbrev pub Handled : ℕ → MemMap → ℕ → ℕ → Memory → Option (ℕ × MemMap × Memory) → Type 0
Handled pgdir mm error_code addr m result =
    let mm' = (find_vma mm addr).1 in
    ((result ≡ some (e_inval, mm', m))
      × ((scan mm.vma_list addr ≡ none)
          ⊎ ((vma : Vma) × (scan mm.vma_list addr ≡ some vma) × (allows error_code vma ≡ false))))
    ⊎ ((vma : Vma) × (scan mm.vma_list addr ≡ some vma)
        × (allows error_code vma ≡ true)
        × (o : Option (ℕ × Memory)) × (result ≡ with_map mm' o)
        × Filled pgdir (page_of addr) (perm_of vma) m o)
