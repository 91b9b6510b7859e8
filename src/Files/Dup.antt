-- ===== src/Files/Dup.antt =====
-- `files_dup`: the files of a child task.
use freak_os.Base.{ℕ, ◌≡◌, Option, none, some}
use mathlib.Core.Option as Opt
use freak_os.Files.{FileStruct, Vfs, copy_of}
use freak_os.Files.Table.{IsFiles, lookup}

module _ {S P : Type 0} (vfs : Vfs S P) where
  abbrev pub Copied : FileStruct → Option (FileStruct × S) → Type 0
  Copied from none = ⊥
  Copied from (some (to, t)) =
      IsFiles to
      × (to.pwd ≡ from.pwd)
      × ((fd : ℕ) → lookup fd to.file_list ≡ Opt.map (copy_of vfs) (lookup fd from.file_list))
