-- ===== src/Files.antt =====
-- The open files of a task: `kern/fs/file.c`.
--
-- The virtual file system and the operations of the inodes are an interface: a state `S` that they act
-- on, and for each operation of `INodeOps_t` its function, or `none` for NULL. A code is `ret` negated. A
-- `File_t` stands in one list only, so that the pointer to it is its place there. `kmalloc` is a flag that
-- says whether there was memory. The semaphore of the list is taken and given back around each walk and
-- is left out. A `panic` is `none`.
pub mod Table
pub mod Open
pub mod Access
pub mod Seek
pub mod Dup
pub mod Create
mod Tests
use freak_os.Base.{
  ℕ, zero, suc, ◌+◌, ◌%◌, ◌^◌, Bool, true, false, ◌&&◌, ◌||◌, not, List, [], ◌∷◌, Option, none,
  some, ◌==◌, if◌then◌else◌,
}
use freak_os.Base.Word.{add32, sub32}

pub data FdStatus : Type 0 where
  fd_none : FdStatus
  fd_init : FdStatus
  fd_opened : FdStatus
  fd_closed : FdStatus

abbrev pub is_opened : FdStatus → Bool
is_opened fd_opened = true
is_opened _ = false

-- The pointer NULL to an inode is 0.
pub record File : Type 0 where
  pub status : FdStatus
  pub readable : Bool
  pub writable : Bool
  pub fd : ℕ
  pub pos : ℕ
  pub inode : ℕ
  pub open_count : ℕ

pub record FileStruct : Type 0 where
  pub pwd : Option ℕ
  pub file_list : List File
  pub ref : ℕ
  pub file_next_id : ℕ

-- What the files need of the virtual file system. Reads give the code, the count and the bytes.
pub record Vfs (S P : Type 0) : Type 0 where
  pub vfs_open : P → ℕ → S → ℕ × ℕ × S
  pub vfs_close : ℕ → S → ℕ × S
  pub iop_read : ℕ → Option (ℕ → S → ℕ × ℕ × List ℕ × S)
  pub iop_write : ℕ → Option (List ℕ → ℕ → S → ℕ × ℕ × S)
  pub iop_lseek : ℕ → Option (ℕ → S → ℕ × S)
  pub iop_stat : ℕ → Option (S → ℕ × ℕ × S)
  pub iop_sync : ℕ → Option (S → ℕ × S)
  pub inode_ref_inc : ℕ → S → S
  pub inode_open_inc : ℕ → S → S

abbrev pub file_inval : ℕ
file_inval = 1

abbrev pub file_inval_op : ℕ
file_inval_op = 2

abbrev pub file_op_failed : ℕ
file_op_failed = 5

abbrev pub file_mem_err : ℕ
file_mem_err = 7

-- `OPEN_READ`, `OPEN_WRITE` and `OPEN_RW`, after `OPEN_MASK`.
abbrev pub open_read : ℕ
open_read = 0

abbrev pub open_write : ℕ
open_write = 1

abbrev pub open_rw : ℕ
open_rw = 2

abbrev pub lseek_set : ℕ
lseek_set = 0

abbrev pub lseek_cur : ℕ
lseek_cur = 1

abbrev pub lseek_end : ℕ
lseek_end = 2

abbrev pub file_open_inc : File → File
file_open_inc f = record f { open_count = add32 f.open_count 1 }

abbrev pub file_open_dec : File → File
file_open_dec f = record f { open_count = sub32 f.open_count 1 }

abbrev pub file_alloc_init : File
file_alloc_init = record {
  status = fd_init;
  readable = false;
  writable = false;
  fd = 0;
  pos = 0;
  inode = 0;
  open_count = 0;
}

abbrev pub files_create : FileStruct
files_create = record { pwd = none; file_list = []; ref = 0; file_next_id = 0 }

-- The first file of the list that passes the test; its place; the list with it changed, or without it.
abbrev pub find_file : (File → Bool) → List File → Option File
find_file test [] = none
find_file test (f ∷ fs) = if test f then some f else find_file test fs

abbrev pub change_file : (File → Bool) → (File → File) → List File → List File
change_file test g [] = []
change_file test g (f ∷ fs) = if test f then g f ∷ fs else f ∷ change_file test g fs

abbrev pub drop_file : (File → Bool) → List File → List File
drop_file test [] = []
drop_file test (f ∷ fs) = if test f then fs else f ∷ drop_file test fs

abbrev pub has_fd : ℕ → File → Bool
has_fd fd f = f.fd == fd

abbrev pub has_inode : ℕ → File → Bool
has_inode i f = f.inode == i

pub find_file_with_fd : ℕ → FileStruct → Option File
find_file_with_fd fd files = find_file (has_fd fd) files.file_list

-- A write to the file with the descriptor.
abbrev pub change_fd : ℕ → (File → File) → FileStruct → FileStruct
change_fd fd g files = record files { file_list = change_file (has_fd fd) g files.file_list }

pub file_test_rw : ℕ → Bool → Bool → FileStruct → Bool
file_test_rw fd readable writable files = elim (find_file_with_fd fd files) [
  | none ↦ false
  | some f ↦ not (readable && not f.readable) && not (writable && not f.writable)
]

-- The fields that `file_open` sets, on the file that is new or was found.
abbrev pub opened_as : ℕ → ℕ → File → File
opened_as open_flag inode f =
    let mode = open_flag % 2 ^ 8 in
    record f {
      status = fd_opened;
      inode = inode;
      pos = 0;
      readable = (mode == open_read) || (mode == open_rw);
      writable = (mode == open_write) || (mode == open_rw);
    }

pub data Opened : Type 0 where
  opened : ℕ → Opened
  failed : ℕ → Opened

-- What follows `vfs_open`: a file of the task with that inode is used again.
pub open_inode : ℕ → ℕ → FileStruct → Opened × FileStruct
open_inode open_flag inode files = elim (find_file (has_inode inode) files.file_list) [
  | some f ↦ (
    opened f.fd,
    record files {
      file_list = change_file (has_inode inode) (opened_as open_flag inode) files.file_list;
    },
  )
  | none ↦
      let f = opened_as open_flag inode file_alloc_init in
      (
        opened files.file_next_id,
        record files {
          file_list = record (file_open_inc f) { fd = files.file_next_id } ∷ files.file_list;
          file_next_id = add32 files.file_next_id 1;
        },
      )
]

-- Around a call of an inode the file is counted as open once more; `g` is what the call does to it.
abbrev pub after_call : (File → File) → File → File
after_call g f = file_open_dec (g (file_open_inc f))

abbrev pub advance : ℕ → File → File
advance blen f = if is_opened f.status then record f { pos = add32 f.pos blen } else f

module _ {S P : Type 0} (vfs : Vfs S P) where
  pub file_open : P → ℕ → Bool → FileStruct → S → Opened × FileStruct × S
  file_open path open_flag got files s =
      let (ret, inode, t) = vfs.vfs_open path open_flag s in
      let (result, files') = open_inode open_flag inode files in
      if not got
      then (failed file_mem_err, files, s)
      else if ret == 0
      then (result, files', t)
      else (failed file_op_failed, files, t)

  -- The result of `vfs_close` is dropped.
  pub file_close : ℕ → FileStruct → S → ℕ × FileStruct × S
  file_close fd files s = elim (find_file_with_fd fd files) [
    | none ↦ (file_inval, files, s)
    | some f ↦ (
      0,
      record files { file_list = drop_file (has_fd fd) files.file_list },
      (vfs.vfs_close f.inode s).1,
    )
  ]

  -- The code, the count that is stored where the code is 0, the bytes, and the state. The Boolean is
  -- `readable`, and the operation that of the inode.
  pub read_with :
      ℕ
      → ℕ
      → FileStruct
      → S
      → Bool
      → Option (ℕ → S → ℕ × ℕ × List ℕ × S)
      → ℕ × ℕ × List ℕ × FileStruct × S
  read_with fd blen files s false op = (file_inval, 0, [], files, s)
  read_with fd blen files s true none = (file_inval_op, 0, [], files, s)
  read_with fd blen files s true (some call) =
      let (ret, copied, bytes, t) = call blen s in
      if ret == 0
      then (0, copied, bytes, change_fd fd (after_call (advance blen)) files, t)
      else (file_op_failed, 0, bytes, change_fd fd (after_call (λ f. f)) files, t)

  pub file_read : ℕ → ℕ → FileStruct → S → ℕ × ℕ × List ℕ × FileStruct × S
  file_read fd blen files s = elim (find_file_with_fd fd files) [
    | none ↦ (file_inval, 0, [], files, s)
    | some f ↦ read_with fd blen files s f.readable (vfs.iop_read f.inode)
  ]

  pub write_with :
      ℕ
      → List ℕ
      → ℕ
      → FileStruct
      → S
      → Bool
      → Option (List ℕ → ℕ → S → ℕ × ℕ × S)
      → ℕ × ℕ × FileStruct × S
  write_with fd buf blen files s false op = (file_inval, 0, files, s)
  write_with fd buf blen files s true none = (file_inval_op, 0, files, s)
  write_with fd buf blen files s true (some call) =
      let (ret, copied, t) = call buf blen s in
      if ret == 0
      then (0, copied, change_fd fd (after_call (advance blen)) files, t)
      else (file_op_failed, 0, change_fd fd (after_call (λ f. f)) files, t)

  pub file_write : ℕ → List ℕ → ℕ → FileStruct → S → ℕ × ℕ × FileStruct × S
  file_write fd buf blen files s = elim (find_file_with_fd fd files) [
    | none ↦ (file_inval, 0, files, s)
    | some f ↦ write_with fd buf blen files s f.writable (vfs.iop_write f.inode)
  ]

  -- The call of `iop_lseek` at the position that was worked out.
  pub seek_to : ℕ → ℕ → FileStruct → S → Option (ℕ → S → ℕ × S) → ℕ × FileStruct × S
  seek_to fd pos files s none = (file_inval_op, change_fd fd (after_call (λ f. f)) files, s)
  seek_to fd pos files s (some call) =
      let (ret, t) = call pos s in
      if ret == 0
      then (0, change_fd fd (after_call (λ f. record f { pos = pos })) files, t)
      else (file_op_failed, change_fd fd (after_call (λ f. f)) files, t)

  -- `LSEEK_END`, from the size that `iop_stat` gives.
  pub seek_end :
      ℕ → ℕ → FileStruct → S → Option (ℕ → S → ℕ × S) → Option (S → ℕ × ℕ × S) → ℕ × FileStruct × S
  seek_end fd pos files s seek none = (file_inval_op, change_fd fd (after_call (λ f. f)) files, s)
  seek_end fd pos files s seek (some call) =
      let (ret, size, t) = call s in
      let sought = seek_to fd (add32 pos size) files t seek in
      if ret == 0 then sought else (file_op_failed, change_fd fd (after_call (λ f. f)) files, t)

  pub file_seek : ℕ → ℕ → ℕ → FileStruct → S → ℕ × FileStruct × S
  file_seek fd pos flag files s = elim (find_file_with_fd fd files) [
    | none ↦ (file_inval, files, s)
    | some f ↦
        let seek = vfs.iop_lseek f.inode in
        if flag == lseek_set
        then seek_to fd pos files s seek
        else if flag == lseek_cur
        then seek_to fd (add32 pos f.pos) files s seek
        else if flag == lseek_end
        then seek_end fd pos files s seek (vfs.iop_stat f.inode)
        else (file_inval, change_fd fd (after_call (λ f. f)) files, s)
  ]

  -- The code of `iop_stat` is passed on.
  pub file_fstat : ℕ → FileStruct → S → ℕ × ℕ × FileStruct × S
  file_fstat fd files s = elim (find_file_with_fd fd files) [
    | none ↦ (file_inval, 0, files, s)
    | some f ↦ elim (vfs.iop_stat f.inode) [
      | none ↦ (file_inval_op, 0, files, s)
      | some call ↦
          let (ret, size, t) = call s in (ret, size, change_fd fd (after_call (λ f. f)) files, t)
    ]
  ]

  pub file_fsync : ℕ → FileStruct → S → ℕ × FileStruct × S
  file_fsync fd files s = elim (find_file_with_fd fd files) [
    | none ↦ (file_inval, files, s)
    | some f ↦ elim (vfs.iop_sync f.inode) [
      | none ↦ (file_inval_op, files, s)
      | some call ↦
          let (ret, t) = call s in
          (if ret == 0 then 0 else file_op_failed, change_fd fd (after_call (λ f. f)) files, t)
    ]
  ]

  abbrev pub copy_of : File → File
  copy_of from = file_open_inc (record file_alloc_init {
    fd = from.fd;
    pos = from.pos;
    readable = from.readable;
    writable = from.writable;
    inode = from.inode;
    status = fd_opened;
  })

  -- The loop of `files_dup`; each copy goes to the front of the new list.
  pub dup_from : List File → List File → S → List File × S
  dup_from [] to s = (to, s)
  dup_from (f ∷ fs) to s =
      dup_from fs (copy_of f ∷ to) (vfs.inode_open_inc f.inode (vfs.inode_ref_inc f.inode s))

  abbrev pub ref_inc_pwd : Option ℕ → S → S
  ref_inc_pwd none s = s
  ref_inc_pwd (some pwd) s = vfs.inode_ref_inc pwd s

  -- As long as there is memory for each copy.
  pub files_dup : FileStruct → FileStruct → S → Option (FileStruct × S)
  files_dup to from s =
      let (fs, t) = dup_from from.file_list to.file_list (ref_inc_pwd from.pwd s) in
      if not (to.ref == 0)
      then none
      else some (record to { pwd = from.pwd; file_next_id = from.file_next_id; file_list = fs }, t)
