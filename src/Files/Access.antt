-- ===== src/Files/Access.antt =====
-- `file_read`, `file_write` and `file_seek`.
use freak_os.Base.{
  ℕ, ◌≡◌, ◌≢◌, ◌⊎◌, refl, Bool, true, false, List, Option, none, some, ◌==◌, if◌then◌else◌,
}
use freak_os.Base.Word.{add32}
use freak_os.Files.{
  File, FileStruct, Vfs, has_fd, change_fd, after_call, is_opened, file_inval, file_inval_op,
  file_op_failed,
}
use freak_os.Files.Table.{IsFiles, lookup, lookup-change, lookup-other, IsFiles-change}

-- The descriptor stands for the same file at another position, and every other one for what it did.
abbrev pub Moved : ℕ → FileStruct → File → ℕ → FileStruct → Type 0
Moved fd files f pos files' =
    IsFiles files'
    × ((g : File) × (lookup fd files'.file_list ≡ some g)
        × (g.pos ≡ pos)
        × (g.inode ≡ f.inode)
        × (g.readable ≡ f.readable)
        × (g.writable ≡ f.writable))
    × ((other : ℕ)
        → (other == fd) ≡ false
        → lookup other files'.file_list ≡ lookup other files.file_list)

-- The position after `blen` bytes, which counts only in a file that is open.
abbrev pub advanced : File → ℕ → ℕ
advanced f blen = if is_opened f.status then add32 f.pos blen else f.pos

module _ (fd : ℕ) (files : FileStruct) (v : IsFiles files) where
  pub Moved-by :
      (g : File → File) (f : File) (pos : ℕ)
      → ((h : File) → ((g h).fd ≡ h.fd) × ((g h).inode ≡ h.inode))
      → lookup fd files.file_list ≡ some f
      → (g f).pos ≡ pos
      → (g f).readable ≡ f.readable
      → (g f).writable ≡ f.writable
      → Moved fd files f pos (change_fd fd g files)
  Moved-by g f pos same e p r w = (
    IsFiles-change (has_fd fd) g files v (λ h. (same h).0) (λ h t. (same h).1),
    (g f, lookup-change fd g (λ h. (same h).0) files.file_list f e, p, (same f).1, r, w),
    λ other n. lookup-other fd g (λ h. (same h).0) other files.file_list n,
  )

  pub still-Moved :
      (f : File)
      → lookup fd files.file_list ≡ some f
      → Moved fd files f f.pos (change_fd fd (after_call (λ h. h)) files)
  still-Moved f e = Moved-by (after_call (λ h. h)) f f.pos (λ h. (refl, refl)) e refl refl refl

module _ {S P : Type 0} (vfs : Vfs S P) where
  -- What a read of `blen` bytes does with a file, by its mode and the operation of its inode.
  abbrev pub ReadBy :
      ℕ
      → ℕ
      → FileStruct
      → S
      → File
      → Bool
      → Option (ℕ → S → ℕ × ℕ × List ℕ × S)
      → ℕ × ℕ × List ℕ × FileStruct × S
      → Type 0
  ReadBy fd blen files s f false op (code, copied, bytes, files', t) =
      (code ≡ file_inval) × (files' ≡ files) × (t ≡ s)
  ReadBy fd blen files s f true none (code, copied, bytes, files', t) =
      (code ≡ file_inval_op) × (files' ≡ files) × (t ≡ s)
  ReadBy fd blen files s f true (some call) (code, copied, bytes, files', t) =
      (t ≡ (call blen s).3)
      × (bytes ≡ (call blen s).2)
      × ((((call blen s).0 ≡ 0)
            × (code ≡ 0)
            × (copied ≡ (call blen s).1)
            × Moved fd files f (advanced f blen) files')
          ⊎ (((call blen s).0 ≢ 0) × (code ≡ file_op_failed) × Moved fd files f f.pos files'))

  abbrev pub ReadAt :
      ℕ → ℕ → FileStruct → S → Option File → ℕ × ℕ × List ℕ × FileStruct × S → Type 0
  ReadAt fd blen files s none (code, copied, bytes, files', t) =
      (code ≡ file_inval) × (files' ≡ files) × (t ≡ s)
  ReadAt fd blen files s (some f) r = ReadBy fd blen files s f f.readable (vfs.iop_read f.inode) r

  -- The same of `file_write`, with the mode for writing.
  abbrev pub WrittenBy :
      ℕ
      → List ℕ
      → ℕ
      → FileStruct
      → S
      → File
      → Bool
      → Option (List ℕ → ℕ → S → ℕ × ℕ × S)
      → ℕ × ℕ × FileStruct × S
      → Type 0
  WrittenBy fd buf blen files s f false op (code, copied, files', t) =
      (code ≡ file_inval) × (files' ≡ files) × (t ≡ s)
  WrittenBy fd buf blen files s f true none (code, copied, files', t) =
      (code ≡ file_inval_op) × (files' ≡ files) × (t ≡ s)
  WrittenBy fd buf blen files s f true (some call) (code, copied, files', t) =
      (t ≡ (call buf blen s).2)
      × ((((call buf blen s).0 ≡ 0)
            × (code ≡ 0)
            × (copied ≡ (call buf blen s).1)
            × Moved fd files f (advanced f blen) files')
          ⊎ (((call buf blen s).0 ≢ 0) × (code ≡ file_op_failed) × Moved fd files f f.pos files'))

  abbrev pub WrittenAt :
      ℕ → List ℕ → ℕ → FileStruct → S → Option File → ℕ × ℕ × FileStruct × S → Type 0
  WrittenAt fd buf blen files s none (code, copied, files', t) =
      (code ≡ file_inval) × (files' ≡ files) × (t ≡ s)
  WrittenAt fd buf blen files s (some f) r =
      WrittenBy fd buf blen files s f f.writable (vfs.iop_write f.inode) r
