-- ===== src/Files/Seek.antt =====
-- `file_seek`.
use freak_os.Base.{ℕ, ◌≡◌, ◌≢◌, ◌⊎◌, Option, none, some}
use freak_os.Base.Word.{add32}
use freak_os.Files.{File, FileStruct, Vfs, file_inval, lseek_set, lseek_cur, lseek_end}
use freak_os.Files.Access.{Moved}

module _ {S P : Type 0} (vfs : Vfs S P) where
  -- The position that the flag asks for.
  abbrev pub IsTarget : ℕ → ℕ → File → S → ℕ → Type 0
  IsTarget flag pos f s target =
      ((flag ≡ lseek_set) × (target ≡ pos))
      ⊎ ((flag ≡ lseek_cur) × (target ≡ add32 pos f.pos))
      ⊎ ((flag ≡ lseek_end)
          × ((call : S → ℕ × ℕ × S) × (vfs.iop_stat f.inode ≡ some call)
              × (target ≡ add32 pos (call s).1)))

  -- With code 0 the file stands where it was asked to; with another code it has not moved.
  abbrev pub Sought : (ℕ → Type 0) → ℕ → FileStruct → File → ℕ × FileStruct × S → Type 0
  Sought Good fd files f (code, files', t) =
      ((code ≡ 0) × ((target : ℕ) × Good target × Moved fd files f target files'))
      ⊎ ((code ≢ 0) × Moved fd files f f.pos files')

  abbrev pub SoughtAt : ℕ → ℕ → ℕ → FileStruct → S → Option File → ℕ × FileStruct × S → Type 0
  SoughtAt fd pos flag files s none (code, files', t) =
      (code ≡ file_inval) × (files' ≡ files) × (t ≡ s)
  SoughtAt fd pos flag files s (some f) r = Sought (IsTarget flag pos f s) fd files f r
