-- ===== src/Kmalloc.antt =====
-- The kernel heap: `kern/mm/kmalloc.c`, the part that `kmalloc` and `kfree` call. They add messages on
-- the console to `dokmalloc2` and `dokfree2`. The buckets below them are never used.
pub mod RoundTrip
mod Tests
use freak_os.Base.{ℕ, ◌+◌, ◌*◌, ◌/◌, ◌%◌, ◌^◌, Option, none, some, ltb, if◌then◌else◌}
use freak_os.Base.Word.{add32, sub32, round_up, pg_size}
use mathlib.Core.Option as Opt
use freak_os.Pmm.{Area, alloc_pages, free_pages}
use freak_os.Vmm.{kernel_base}
use freak_os.Paging.{page2pa}

unfoldable pub pages_of : ℕ → ℕ
pages_of bytes = round_up bytes 4096 / pg_size

-- What `page2pagen` makes of a pointer; `null_page` is `NULL - Pages`.
abbrev pub pagen_of : ℕ → Option ℕ → ℕ
pagen_of null_page none = null_page
pagen_of null_page (some page) = page

pub dokmalloc2 : ℕ → ℕ → Area → Option (ℕ × Area)
dokmalloc2 null_page bytes s =
    Opt.map (λ (paddr, t). (add32 (page2pa (pagen_of null_page paddr)) kernel_base, t))
      (alloc_pages (pages_of bytes) s)

-- `pa2page` panics on a page above `PageCount`.
pub dokfree2 : ℕ → ℕ → ℕ → Area → Option Area
dokfree2 page_count vaddr bytes s =
    let page = sub32 vaddr kernel_base / 4096 in
    if ltb page_count page then none else free_pages page (pages_of bytes) s
