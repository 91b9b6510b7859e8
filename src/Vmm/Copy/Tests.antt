-- ===== src/Vmm/Copy/Tests.antt =====
-- Runs of the copies between user and kernel.
use freak_os.Base.{some, arith, if◌then◌else◌, ◌==◌, inr}
use freak_os.Vmm.Tests.{two_areas}
use freak_os.Vmm.Copy.{Bytes, copy_legal_str}
use freak_os.Vmm.Copy.Parts.{Copied}
use freak_os.Vmm.Copy.Legal.{copy_legal_str-Copied}

-- "ab" across the end of a page.
abbrev two_letters : Bytes
two_letters a = if a == 0x40_0FFF then 97 else if a == 0x40_1000 then 98 else 0

copy_legal_str-Copied_example :
    Copied
      (some two_areas)
      0xC000_8000
      0x40_0FFF
      16
      two_letters
      (copy_legal_str (some two_areas) 0xC000_8000 0x40_0FFF 16 two_letters)
copy_legal_str-Copied_example =
    copy_legal_str-Copied (some two_areas) 0xC000_8000 0x40_0FFF 16 two_letters (omega arith)
      (inr (omega arith))
