-- ===== src/Lib.antt =====
-- FreakOS, a small 32-bit kernel.
--
-- Parts and files. A page frame, an address, a device, a sector and a node of a list are numbers; a
-- `panic` or a failed `assert` stops the machine and is `none`; 32-bit arithmetic keeps its wrap-around.
--   * Base: shared names, tests on numbers, lists, words (`kern/include/types.h`: ROUNDDOWN, ROUNDUP,
--     GetBit, SetBit, ClearBit).
--   * LinkedList: the intrusive list of `kern/include/list.h` on a heap of pointers. `Ring` says which
--     sequence of nodes a heap holds; `Insert`, `Remove` and `Walk` are about the operations. The other
--     parts keep the sequence only.
--   * Pmm: the first-fit allocator of pages, `kern/mm/ff_mmanager.c`, and getFreeMem of `kern/mm/pmm.c`.
--     `Mult` counts how often a page is covered by the free blocks, which forgets their order;
--     `Invariant` is the validity of a free set; `Alloc`, `Free` (with `Merge`) and `Start` are about
--     ff_alloc_pages, ff_free_pages, ff_memmap_init and getFreeMem.
--   * Vmm: the areas of a process, `kern/mm/vmm.c`: find_vma, insert_vma, mm_map (`Areas`, `Map`) and
--     checkUserMem (`Check`), and the copies between user and kernel (`Copy`): `Copy.Strings` is about
--     strnlen and memcpy of `kern/include/string.h`, `Copy.Small`, `Copy.Parts` and `Copy.Legal` about
--     copyLegalStr.
--   * Kmalloc: kmalloc and kfree of `kern/mm/kmalloc.c`, on the page allocator (`RoundTrip`).
--   * BlockCache: the write-back cache of sectors, `kern/driver/bcache.c`. `Slots` is about the searches,
--     `Refine` says which flat disk a cache stands for, `Open` how a slot is freed, `Ops` and `Faults` are
--     about bcache_rw, `Request` about diskIO_BCache, `Sync` about sync_all_bcache, `Stale` about a read
--     that fails.
--   * Sched: the run queue and schedule, `kern/krnl/task/sched.c`. `Queue` is the invariant and wakeupTask,
--     `Round` is about schedule.
--   * Wait: wait queues, `kern/krnl/sync/wait.c`; `Wakeup` is about wakeupAll.
--   * Semaphore: `kern/krnl/sync/sem.c`. `System` makes tasks that share a semaphore a transition system;
--     `Invariant` and `Release` show that each step keeps its invariant, `Exclusion` what follows for every
--     state that can be reached.
--   * Files: the open files of a task, `kern/fs/file.c`, over an interface of the virtual file system and the
--     inodes. `Table` is the invariant and the lookup of descriptors, `Open` is about file_open and
--     file_close, `Access` about file_read and file_write, `Seek` about file_seek, `Dup` about files_dup,
--     `Create` about files opened with OPEN_CREATE.
--   * Stdin: the characters of the keyboard as a file, `kern/fs/stdio/stdin_inode.c`; `Ring` is about its
--     ring buffer as a queue.
--   * Paging: directories and tables, `kern/mm/page.c`, on the frames of the allocator. `Entry` is about the
--     bits of an entry, `Tree` and `Grow` about the two levels of tables, `Count` about the mappings to a
--     frame, `Space` is the invariant. `Lookup` is about get_pte, `Drop`, `Change`, `Replace` and `Insert`
--     about page_insert, `Remove` about page_remove, `Fresh` about pgdir_alloc_page, `Range` holds the
--     operations on ranges, `Range.Unmap` is about unmap_range, `Range.Shrink` and `Range.Exit` about exit_range.
--   * PageFault: `kern/mm/page_fault.c`; `Handle` is about do_pgfault.
--   * AddressSpace: exit_mmap of `kern/mm/vmm.c`, the areas with their page tables (`Teardown`).
--   * Tasks: the family of tasks, `kern/krnl/task/task.c`. `Family` says which children the links stand for,
--     `Change` is about add_task, `Unlink` about del_task, `Exit` about the children of a task that ends,
--     `Lookup` about find_task and get_new_tid.
--   * Process: do_exit and do_wait of `kern/krnl/task/task.c`, on the scheduler, the family of tasks and
--     their address spaces. `Wake` is about waking a task that waits for a child, `Release` about the memory of
--     a task that ends, `Adopt` about the children that `init` gets, `Leave` and `Exit` about do_exit, `Wait`
--     about do_wait. A task's structures are values, so that freeing them by kfree is left out.
--   The page tables take their frames from the page allocator (`Pmm.Single`), and a page fault asks the areas
--   of the process. The parts also meet in the scheduler: a semaphore puts the current task to sleep in its wait queue and calls
--   schedule, and wakes it by wakeupTask.
--
-- Fuel. A walk over a list of nodes has as much fuel as the list has nodes and one more, the loops of
-- do_exit and do_wait as much as the task has children and one more; the loop of
-- checkUserMem has `len + 1` and that of copyLegalStr `maxn + 1`, since each round moves on by one address
-- at least. The rounds
-- over a range of addresses have as much fuel as the range has bytes. The other loops are bounded by the
-- code.
--
-- Not modelled: the FAT library, which is a copy of another project's, with the inodes on top of it; the virtual file system, of
-- which the table of open files uses an interface; fork, copy_range, the mapping of the boot code, and
-- the buckets of the kernel's heap, which nothing uses;
-- drivers that only talk to ports; the tables of the hardware and the boot code; the printing; the user
-- programs.
pub mod AddressSpace
pub mod Base
pub mod BlockCache
pub mod Files
pub mod Kmalloc
pub mod LinkedList
pub mod PageFault
pub mod Paging
pub mod Pmm
pub mod Process
pub mod Sched
pub mod Semaphore
pub mod Stdin
pub mod Tasks
pub mod Vmm
pub mod Wait
