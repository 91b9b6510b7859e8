-- ===== src/Kmalloc/Tests.antt =====
-- Runs of the kernel heap on sixteen pages.
use freak_os.Base.{arith}
use freak_os.Base.Bits.{get_bit}
use freak_os.Pmm.Tests.{two_blocks, two_blocks-IsArea}
use freak_os.Kmalloc.{dokmalloc2}
use freak_os.Kmalloc.RoundTrip.{IsUnmarked, Served, dokmalloc2-Served}

two_blocks-IsUnmarked : IsUnmarked two_blocks
unfolding get_bit
two_blocks-IsUnmarked = record { open_pages = λ x h. ground arith; inside = λ x h k. ground arith }

dokmalloc2-Served_example :
    Served 7 16 5000 two_blocks-IsArea two_blocks-IsUnmarked
      (omega arith)
      (omega arith)
      (omega arith)
      (dokmalloc2 7 5000 two_blocks)
dokmalloc2-Served_example =
    dokmalloc2-Served 7 16 5000 two_blocks-IsArea two_blocks-IsUnmarked (omega arith) (omega arith)
      (omega arith)
