-- ===== src/Files/Open.antt =====
-- `file_open` and `file_close`.
use freak_os.Base.{
  ℕ, ◌+◌, ◌<◌, ◌^◌, ◌%◌, ◌≡◌, ◌≢◌, ◌⊎◌, ap, inl, inr, refl, Bool, true, false, ◌||◌, List, [], ◌∷◌,
  none, some, arith, ◌==◌, has, Distinct, Bool-cases, Option-cases,
}
use mathlib.Core.Option as Opt
use freak_os.Files.{
  File, FileStruct, Vfs, Opened, opened, failed, find_file, change_file, has_fd, has_inode,
  find_file_with_fd, opened_as, file_open_inc, file_alloc_init, open_inode, file_open, file_close,
  file_inval, open_read, open_write, open_rw, is_opened,
}
use freak_os.Files.Table.{
  IsFiles, fds, inodes, lookup, lookup-dropped, lookup-kept, IsFiles-change, IsFiles-drop,
}

-- The file that a test finds has another descriptor than the files in front of it.
find_file-fds :
    (test : File → Bool) (fs : List File) (f : File)
    → find_file test fs ≡ some f
    → has f.fd (fds fs) ≡ true
find_file-fds test [] f e = cc
find_file-fds test (x ∷ xs) f e = elim (Bool-cases (test x)) [
  | inl here ↦
      let found : some x ≡ some f = rw here at e in let same : x.fd ≡ f.fd = cc in ground arith
  | inr past ↦ ground (arith, find_file-fds test xs f (rw past at e))
]

module _ (test : File → Bool) (g : File → File) (same : (f : File) → (g f).fd ≡ f.fd) where
  found-lookup :
      (fs : List File) (f : File)
      → Distinct (fds fs)
      → find_file test fs ≡ some f
      → lookup f.fd (change_file test g fs) ≡ some (g f)
  found-lookup [] f d e = cc
  found-lookup (x ∷ xs) f d e = elim (Bool-cases (test x)) [
    | inl here ↦
        let found : some x ≡ some f = rw here at e in
        let number : x.fd ≡ f.fd = cc in
        let there : has_fd f.fd (g x) ≡ true = ground (arith, same x) in
        rw (here, there) (ap (Opt.map g) found)
    | inr past ↦
        let later = rw past at e in
        let far : has_fd f.fd x ≡ false = ground (arith, find_file-fds test xs f later) in
        rw (past, far) (found-lookup xs f d.1 later)
  ]

  found-others :
      (fs : List File) (f : File) (other : ℕ)
      → find_file test fs ≡ some f
      → (other == f.fd) ≡ false
      → lookup other (change_file test g fs) ≡ lookup other fs
  found-others [] f other e n = cc
  found-others (x ∷ xs) f other e n = elim (Bool-cases (test x)) [
    | inl here ↦
        let found : some x ≡ some f = rw here at e in
        let number : x.fd ≡ f.fd = cc in
        let far : has_fd other x ≡ false = ground arith in
        let far' : has_fd other (g x) ≡ false = ground (arith, same x) in rw (here, far, far') refl
    | inr past ↦ rw past (elim (Bool-cases (has_fd other x)) [
      | inl e' ↦ rw e' refl
      | inr e' ↦ rw e' (found-others xs f other (rw past at e) n)
    ])
  ]

-- The modes that the flags ask for, by `OPEN_MASK`.
abbrev pub asks_read : ℕ → Bool
asks_read open_flag = (open_flag % 256 == open_read) || (open_flag % 256 == open_rw)

abbrev pub asks_write : ℕ → Bool
asks_write open_flag = (open_flag % 256 == open_write) || (open_flag % 256 == open_rw)

-- A descriptor stands for a file that has just been opened, and all others stand for what they did.
abbrev pub IsOpenedAs : ℕ → ℕ → FileStruct → ℕ → FileStruct → Type 0
IsOpenedAs open_flag inode files fd files' =
    IsFiles files'
    × ((f : File) × (lookup fd files'.file_list ≡ some f)
        × (is_opened f.status ≡ true)
        × (f.inode ≡ inode)
        × (f.pos ≡ 0)
        × (f.readable ≡ asks_read open_flag)
        × (f.writable ≡ asks_write open_flag))
    × ((other : ℕ)
        → (other == fd) ≡ false
        → lookup other files'.file_list ≡ lookup other files.file_list)

abbrev pub InodeOpened : ℕ → ℕ → FileStruct → Opened × FileStruct → Type 0
InodeOpened open_flag inode files (failed code, files') = ⊥
InodeOpened open_flag inode files (opened fd, files') = IsOpenedAs open_flag inode files fd files'

find_file-has :
    (i : ℕ) (fs : List File) → find_file (has_inode i) fs ≡ none → has i (inodes fs) ≡ false
find_file-has i [] e = refl
find_file-has i (x ∷ xs) e = ground (arith, find_file-has i xs)

open_inode-Opened :
    (open_flag inode : ℕ) (files : FileStruct)
    → IsFiles files
    → files.file_next_id + 1 < 2 ^ 31
    → InodeOpened open_flag inode files (open_inode open_flag inode files)
unfolding open_inode
open_inode-Opened open_flag inode files v room =
    elim (Option-cases (find_file (has_inode inode) files.file_list)) [
      | inr (f, e) ↦
          let g = opened_as open_flag inode in
          rw (open_inode, e)
            (
              IsFiles-change (has_inode inode) g files v (λ h. refl) (λ h t. ground arith),
              (
                g f,
                found-lookup (has_inode inode) g (λ h. refl) files.file_list f v.distinct e,
                refl,
                refl,
                refl,
                refl,
                refl,
              ),
              λ other n. found-others (has_inode inode) g (λ h. refl) files.file_list f other e n,
            )
      | inl e ↦
          let f : File = record (file_open_inc (opened_as open_flag inode file_alloc_init)) {
            fd = files.file_next_id;
          } in
          let out = find_file-has inode files.file_list e in
          rw (open_inode, e)
            (
              record {
                below = λ fd h. ground (arith, v.below fd);
                small = ground arith;
                distinct = ground (arith, v.below files.file_next_id);
                shared = ground arith;
              },
              (f, ground arith, refl, refl, refl, refl, refl),
              λ other n. ground arith,
            )
    ]

module _ {S P : Type 0} (vfs : Vfs S P) where
  -- What `file_open` gives: it fails and the files are as before, or the path was opened.
  abbrev pub FileOpened : P → ℕ → Bool → FileStruct → S → Opened × FileStruct × S → Type 0
  FileOpened path open_flag got files s (failed code, files', t) =
      (files' ≡ files) × ((got ≡ false) ⊎ ((vfs.vfs_open path open_flag s).0 ≢ 0))
  FileOpened path open_flag got files s (opened fd, files', t) =
      let (ret, inode, t') = vfs.vfs_open path open_flag s in
      (ret ≡ 0) × (t ≡ t') × IsOpenedAs open_flag inode files fd files'

  opened_by :
      (path : P) (open_flag : ℕ) (got : Bool) (files : FileStruct) (s : S) (r : Opened × FileStruct)
      → (vfs.vfs_open path open_flag s).0 ≡ 0
      → InodeOpened open_flag (vfs.vfs_open path open_flag s).1 files r
      → FileOpened path open_flag got files s (r.0, r.1, (vfs.vfs_open path open_flag s).2)
  opened_by path open_flag got files s (failed code, files') ok r = absurd r
  opened_by path open_flag got files s (opened fd, files') ok r = (ok, refl, r)

  -- On a valid table with room for one more descriptor, `file_open` fails only where there is no memory or
  -- the path cannot be opened, and then the table is as before. Else it gives a descriptor that stands for
  -- the inode, at position 0, with the modes that the flags ask for; every other descriptor stands for what
  -- it did; and the table is valid.
  pub file_open-Opened :
      (path : P) (open_flag : ℕ) (got : Bool) (files : FileStruct) (s : S)
      → IsFiles files
      → files.file_next_id + 1 < 2 ^ 31
      → FileOpened path open_flag got files s (file_open vfs path open_flag got files s)
  unfolding file_open
  file_open-Opened path open_flag false files s v room = (refl, inl refl)
  file_open-Opened path open_flag true files s v room =
      let (ret, inode, t) = vfs.vfs_open path open_flag s in
      elim (Bool-cases (ret == 0)) [
        | inl ok ↦ rw ok (
            opened_by path open_flag true files s (open_inode open_flag inode files) (ground arith)
              (open_inode-Opened open_flag inode files v room))
        | inr bad ↦ rw bad (refl, inr (ground arith))
      ]

  -- The descriptor stands for no file any more, and every other one for what it did.
  abbrev pub Closed : ℕ → FileStruct → FileStruct → Type 0
  Closed fd files files' =
      IsFiles files'
      × (lookup fd files'.file_list ≡ none)
      × ((other : ℕ)
          → (other == fd) ≡ false
          → lookup other files'.file_list ≡ lookup other files.file_list)

  -- On a valid table, after `file_close` the descriptor stands for no file and every other one for what it
  -- did; the code is 0 if it stood for one before, and FILE_INVAL else; and the table is valid.
  pub file_close-Closed :
      (fd : ℕ) (files : FileStruct) (s : S)
      → IsFiles files
      → let (code, files', t) = file_close vfs fd files s in
        Closed fd files files'
        × (((code ≡ 0) × (lookup fd files.file_list ≢ none))
            ⊎ ((code ≡ file_inval) × (lookup fd files.file_list ≡ none)))
  unfolding file_close find_file_with_fd
  file_close-Closed fd files s v = elim (Option-cases (lookup fd files.file_list)) [
    | inl e ↦ rw (file_close, find_file_with_fd, e) ((v, e, λ other n. refl), inr (refl, refl))
    | inr (f, e) ↦
        rw (file_close, find_file_with_fd, e)
          (
            (
              IsFiles-drop (has_fd fd) files v,
              lookup-dropped fd files.file_list v.distinct,
              λ other n. lookup-kept fd other files.file_list n,
            ),
            inl (refl, λ bad. cc),
          )
  ]
