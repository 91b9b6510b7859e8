-- ===== src/Files/Tests.antt =====
-- Runs of the file table over a file system with one file.
use freak_os.Base.{
  ℕ, ◌+◌, ◌≡◌, ◌≢◌, ◌⊎◌, refl, true, false, [], ◌∷◌, none, some, arith, ◌==◌, if◌then◌else◌,
}
use freak_os.Base.Bits.{get_bit}
use freak_os.Files.{
  File, FileStruct, Vfs, fd_opened, opened, file_open, open_inode, file_close, file_read, read_with,
  file_test_rw, find_file_with_fd, file_fstat, file_fsync,
}
use freak_os.Files.Table.{IsFiles, lookup}
use freak_os.Files.Open.{FileOpened, file_open-Opened, Closed, file_close-Closed}
use freak_os.Files.Create.{file_open-create_lem}

-- The state counts the references to the inodes. A path is the number of its inode, and all can be opened
-- but 0. Every read gives three bytes, and the sizes are 100.
abbrev small_vfs : Vfs ℕ ℕ
small_vfs = record {
  vfs_open = λ path flag s. if path == 0 then (3, 0, s) else (0, path, s + 1);
  vfs_close = λ i s. (0, s);
  iop_read = λ i. some (λ blen s. (0, 3, 65 ∷ 66 ∷ 67 ∷ [], s));
  iop_write = λ i. some (λ buf blen s. (if i == 9 then 1 else 0, blen, s));
  iop_lseek = λ i. some (λ pos s. (0, s));
  iop_stat = λ i. some (λ s. (0, 100, s));
  iop_sync = λ i. none;
  inode_ref_inc = λ i s. s + 1;
  inode_open_inc = λ i s. s;
}

abbrev file_at : ℕ → ℕ → File
file_at fd inode = record {
  status = fd_opened;
  readable = true;
  writable = true;
  fd = fd;
  pos = 10;
  inode = inode;
  open_count = 1;
}

abbrev two_files : FileStruct
two_files = record {
  pwd = some 5;
  file_list = file_at 1 8 ∷ file_at 0 7 ∷ [];
  ref = 1;
  file_next_id = 2;
}

two_files-IsFiles : IsFiles two_files
two_files-IsFiles = record {
  below = λ fd h. ground arith;
  small = omega arith;
  distinct = ground arith;
  shared = ground arith;
}

reads : (file_read small_vfs 1 4 two_files 0).0 ≡ 0
unfolding file_read find_file_with_fd read_with
reads = refl

size : (file_fstat small_vfs 1 two_files 0).1 ≡ 100
unfolding file_fstat find_file_with_fd
size = refl

no_sync : (file_fsync small_vfs 1 two_files 0).0 ≡ 2
unfolding file_fsync find_file_with_fd
no_sync = refl

file_open-Opened_example :
    FileOpened small_vfs 12 2 true two_files 0 (file_open small_vfs 12 2 true two_files 0)
file_open-Opened_example =
    file_open-Opened small_vfs 12 2 true two_files 0 two_files-IsFiles (omega arith)

file_close-Closed_example :
    let (code, files, t) = file_close small_vfs 1 two_files 0 in
    Closed small_vfs 1 two_files files
    × (((code ≡ 0) × (lookup 1 two_files.file_list ≢ none))
        ⊎ ((code ≡ 1) × (lookup 1 two_files.file_list ≡ none)))
file_close-Closed_example = file_close-Closed small_vfs 1 two_files 0 two_files-IsFiles

-- OPEN_RW with OPEN_CREATE.
create_bit : get_bit 6 2 ≡ 1
unfolding get_bit
create_bit = refl

created : (file_open small_vfs 12 6 true two_files 0).0 ≡ opened 2
unfolding file_open open_inode
created = refl

file_open-create_lem_example :
    let files = (file_open small_vfs 12 6 true two_files 0).1 in
    (file_test_rw 2 true false files ≡ false) × (file_test_rw 2 false true files ≡ false)
file_open-create_lem_example =
    file_open-create_lem small_vfs 12 6 two_files 0 2 two_files-IsFiles (omega arith) create_bit
      created
