-- ===== src/Kmalloc/RoundTrip.antt =====
-- Memory that `kmalloc` gave is given back by `kfree`.
use freak_os.Base.{
  ℕ, ◌+◌, ◌*◌, ◌/◌, ◌^◌, ◌≤◌, ◌<◌, ◌≡◌, ◌⊎◌, ◌∙◌, sym, ◌==◌, refl, inl, inr, true, false, Option,
  none, some, arith, ltb, has, Bool-cases,
}
use freak_os.Base.Bits.{get_bit}
use freak_os.Base.Word.{add32, sub32, round_down, round_up, pg_size}
use freak_os.Pmm.{Area, take_block, free_pages}
use freak_os.Pmm.Invariant.{IsArea, not-has_of_covers}
use freak_os.Pmm.Alloc.{first_fit-some, Allocated, alloc_pages-Allocated}
use freak_os.Pmm.Free.{Freed, free_pages-Freed}
use freak_os.Pmm.Single.{free_count, alloc_pages-cases, take_block-flags}
use freak_os.Paging.{page2pa}
use freak_os.Vmm.{kernel_base}
use freak_os.Kmalloc.{pages_of, dokmalloc2, dokfree2}

-- A free page is not reserved, and only the head of a block is marked as one.
pub record IsUnmarked (s : Area) : Type 0 where
  pub open_pages : (x : ℕ) → free_count s x ≡ 1 → get_bit (s.flags x) 0 ≡ 0
  pub inside : (x : ℕ) → free_count s x ≡ 1 → has x s.free_list ≡ false → get_bit (s.flags x) 1 ≡ 0

pub pages_of-le :
    (bytes : ℕ)
    → 0 < bytes
    → bytes + pg_size ≤ 2 ^ 32
    → (0 < pages_of bytes) × (bytes ≤ pages_of bytes * pg_size)
unfolding pages_of round_up round_down
pages_of-le bytes pos le = omega arith

-- The page that an address of the kernel heap names.
page_back :
    (page : ℕ) → page < 2 ^ 20 → sub32 (add32 (page2pa page) kernel_base) kernel_base / 4096 ≡ page
page_back page lt = omega arith

module _ {bound : ℕ} {s : Area} (null_page page_count bytes : ℕ) (v : IsArea bound s)
    (unmarked : IsUnmarked s) (counted : bound ≤ page_count) (pos : 0 < bytes)
    (le : bytes + pg_size ≤ 2 ^ 32) where
  -- The pages from `page` on, which were free, and what giving them back leads to.
  abbrev pub Returned : ℕ → Area → Type 0
  Returned page t =
      (page + pages_of bytes ≤ bound)
      × ((i : ℕ) → page ≤ i → i < page + pages_of bytes → free_count s i ≡ 1)
      × ((i : ℕ) → page ≤ i → i < page + pages_of bytes → free_count t i ≡ 0)
      × (u : Area) × (dokfree2 page_count (add32 (page2pa page) kernel_base) bytes t ≡ some u)
      × IsArea bound u
      × ((i : ℕ) → free_count u i ≡ free_count s i)

  -- What `dokmalloc2` gives.
  abbrev pub Served : Option (ℕ × Area) → Type 0
  Served none = ⊥
  Served (some (vaddr, t)) =
      (bytes ≤ pages_of bytes * pg_size)
      × (((vaddr ≡ add32 (page2pa null_page) kernel_base)
            × (t ≡ s)
            × ((x : ℕ) → has x s.free_list ≡ true → s.property x < pages_of bytes))
          ⊎ ((page : ℕ) × (vaddr ≡ add32 (page2pa page) kernel_base) × Returned page t))

  some_pages : 0 < pages_of bytes
  some_pages = (pages_of-le bytes pos le).0

  -- `free_pages` on pages without flags does not panic.
  not_flagged :
      (page : ℕ) (t : Area) (area : IsArea bound t) (fits : page + pages_of bytes ≤ bound)
      (used : (i : ℕ) → page ≤ i → i < page + pages_of bytes → free_count t i ≡ 0)
      → ((i : ℕ)
          → page ≤ i
          → i < page + pages_of bytes
          → (get_bit (t.flags i) 0 ≡ 0) × (get_bit (t.flags i) 1 ≡ 0))
      → (o : Option Area) → Freed page (pages_of bytes) area some_pages fits used o
      → (u : Area) × (o ≡ some u) × Freed page (pages_of bytes) area some_pages fits used (some u)
  not_flagged page t area fits used clean none (i, (lo, hi), inl bit) =
      absurd (bit (clean i lo hi).0)
  not_flagged page t area fits used clean none (i, (lo, hi), inr bit) =
      absurd (bit (clean i lo hi).1)
  not_flagged page t area fits used clean (some u) f = (u, refl, f)

  -- The pages that were taken carry no flag.
  taken_clean :
      (page : ℕ)
      → has page s.free_list ≡ true
      → pages_of bytes ≤ s.property page
      → get_bit ((take_block (pages_of bytes) page s).flags page) 1 ≡ 0
      → (i : ℕ) → page ≤ i
      → i < page + pages_of bytes
      → free_count s i ≡ 1
      → (get_bit ((take_block (pages_of bytes) page s).flags i) 0 ≡ 0)
        × (get_bit ((take_block (pages_of bytes) page s).flags i) 1 ≡ 0)
  taken_clean page h big head i lo hi free =
      let (low, high) = take_block-flags (pages_of bytes) page s some_pages in
      (
        low i ∙ unmarked.open_pages i free,
        elim (Bool-cases (i == page)) [
          | inl e ↦ let here : i ≡ page = ground arith in rw here head
          | inr e ↦
              let inner = not-has_of_covers v.blocks page i h (ground arith) (omega arith) in
              high i e (ground arith) ∙ unmarked.inside i free inner
        ],
      )

  found-Returned :
      (page : ℕ)
      → has page s.free_list ≡ true
      → pages_of bytes ≤ s.property page
      → Allocated
          (pages_of bytes)
          v
          some_pages
          (some (some page, take_block (pages_of bytes) page s))
      → Returned page (take_block (pages_of bytes) page s)
  unfolding dokfree2
  found-Returned page h big (area, same, head, size) =
      let n = pages_of bytes in
      let t = take_block n page s in
      let fits : page + n ≤ bound = omega (arith, v.blocks.within page h) in
      let free = λ (i : ℕ) (lo : page ≤ i) (hi : i < page + n).
        let once : free_count s i ≡ 1 = ground (arith, same i, v.blocks.single i) in once in
      let used = λ (i : ℕ) (lo : page ≤ i) (hi : i < page + n).
        let gone : free_count t i ≡ 0 = ground (arith, same i, v.blocks.single i) in gone in
      let clean = λ (i : ℕ) (lo : page ≤ i) (hi : i < page + n).
        taken_clean page h big head i lo hi (free i lo hi) in
      let (u, e, (area', same')) =
        not_flagged page t area fits used clean (free_pages page n t)
          (free_pages-Freed page n area some_pages fits used) in
      let known : ltb page_count page ≡ false = ground arith in
      (
        fits,
        free,
        used,
        u,
        rw (page_back page (omega (arith, v.small)), known) e,
        area',
        λ i. same' i ∙ sym (same i),
      )

  -- On a valid free set whose pages are unmarked, a request for at least one byte, small enough for
  -- `ROUNDUP` not to wrap, never panics. Where no free block is large enough, the result is the address
  -- that comes of NULL and the set stays the same. Else it is the kernel's address of a page, from which on
  -- there is room for the bytes in pages that were free and are not any more; and `dokfree2` on it, with the
  -- same size, does not panic and makes the free set what it was.
  pub dokmalloc2-Served : Served (dokmalloc2 null_page bytes s)
  unfolding dokmalloc2
  dokmalloc2-Served =
      let room = (pages_of-le bytes pos le).1 in
      let a = alloc_pages-Allocated (pages_of bytes) v some_pages in
      elim (alloc_pages-cases (pages_of bytes) s some_pages) [
        | inl e ↦ let (same, few) = rw e at a in rw e (room, inl (refl, same, few))
        | inr (page, e, f) ↦
            let (h, big) = first_fit-some (pages_of bytes) s.property s.free_list page f in
            rw e (room, inr (page, refl, found-Returned page h big (rw e at a)))
      ]
