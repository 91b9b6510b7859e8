-- ===== src/Files/Create.antt =====
-- What a file that is opened with OPEN_CREATE may be used for.
use freak_os.Base.{ℕ, ◌+◌, ◌^◌, ◌<◌, ◌≡◌, ◌∙◌, true, false, some, arith}
use freak_os.Base.Bits.{get_bit}
use freak_os.Files.{
  FileStruct, Vfs, Opened, opened, failed, file_open, file_test_rw, find_file_with_fd,
}
use freak_os.Files.Table.{IsFiles, lookup}
use freak_os.Files.Open.{FileOpened, file_open-Opened, asks_read, asks_write}

create_asks :
    (open_flag : ℕ)
    → get_bit open_flag 2 ≡ 1
    → (asks_read open_flag ≡ false) × (asks_write open_flag ≡ false)
unfolding get_bit
create_asks open_flag c = (ground arith, ground arith)

module _ {S P : Type 0} (vfs : Vfs S P) where
  -- Whatever else the flags say, a file that is opened on a valid table with OPEN_CREATE is neither readable
  -- nor writable: OPEN_MASK keeps that bit, so that the flags are none of the three modes.
  pub file_open-create_lem :
      (path : P) (open_flag : ℕ) (files : FileStruct) (s : S) (fd : ℕ)
      → IsFiles files
      → files.file_next_id + 1 < 2 ^ 31
      → get_bit open_flag 2 ≡ 1
      → (file_open vfs path open_flag true files s).0 ≡ opened fd
      → let files' = (file_open vfs path open_flag true files s).1 in
        (file_test_rw fd true false files' ≡ false) × (file_test_rw fd false true files' ≡ false)
  unfolding file_test_rw find_file_with_fd
  file_open-create_lem path open_flag files s fd v room c e =
      useless (file_open vfs path open_flag true files s) e
        (file_open-Opened vfs path open_flag true files s v room)
    where
      useless :
          (r : Opened × FileStruct × S)
          → r.0 ≡ opened fd
          → FileOpened vfs path open_flag true files s r
          → (file_test_rw fd true false r.1 ≡ false) × (file_test_rw fd false true r.1 ≡ false)
      useless (failed code, files', t) e k = cc
      useless (opened n, files', t) e (ok, st, (is, (f, l, o, i, p, r, w), others)) =
          let same : fd ≡ n = cc in
          let (nr, nw) = create_asks open_flag c in
          let stands : lookup fd files'.file_list ≡ some f = rw same l in
          let shut : f.readable ≡ false = r ∙ nr in
          let shut' : f.writable ≡ false = w ∙ nw in
          (
            rw (file_test_rw, find_file_with_fd, stands) (ground arith),
            rw (file_test_rw, find_file_with_fd, stands) (ground arith),
          )
