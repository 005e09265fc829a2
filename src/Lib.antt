-- ===== src/Lib.antt =====
-- A model of the k210-os kernel, an operating system for the Kendryte K210 written in C, and what
-- has been proved of it. Paths are from the repository's root.
--
-- The program. The kernel hands out physical pages (src/mm_frame_allocator.c, which keeps returned
-- ones in the max-heap of src/max_heap.c) and process ids (src/tk_pid.c). Page tables
-- (src/mm_page_table.c) take their nodes from the frame allocator, and the copies between kernel
-- and user go through them. Spinlocks (src/sync_spinlock.c) guard each structure, and semaphores
-- (src/sync_sem.c) put tasks to sleep. The FAT32 file system (src/fs_fat32.c) reads and writes the
-- card through a cache of sectors (src/fs_buf.c, src/fs_disk.c), whose buffers are locked by
-- semaphores. Pipes (src/fs_pipe.c) are rings of bytes with queues of sleeping tasks. The scheduler
-- (src/tk_manage.c, src/tk_proc.c) runs ready tasks in turn, and exit and waitpid (src/tk_task.c)
-- join a task and its parent.
--
-- The files.
--   Prelude     lists and Boolean tests over the native numbers, and `Outcome`: how a run of the
--               code ends. `ok` is a return, `panic` a failed assert or a call of panic, `fault` an
--               access outside an array or a division by zero, `hang` a loop that does not end.
--   Address     the conversions and constants of src/include/mm.h.
--   Pid         src/tk_pid.c: `PidAllocator`, pid_init, pid_alloc, pid_dealloc.
--   MaxHeap     src/max_heap.c: the heap as its array, its size and its bound; heap_init,
--               heap_insert (heap_sift_up is heap_SiftUp), heap_remove_max (heap_removeMax with
--               heap_sift_down, heap_SiftDown), heap_top, is_some.
--   Frame       src/mm_frame_allocator.c: frame_allocator_init, frame_alloc, frame_dealloc.
--   Semaphore   src/sync_sem.c: sem_init, sem_wait up to the point where it sleeps or returns,
--               sem_signal, sem_hold. Each runs as a whole, since it holds the spinlock.
--   Timer       src/timer.c: tm2tamp.
--   Strings     src/string.c: memset, memcmp, memmove, memcpy, strncmp on a memory of bytes, and
--               atoi on a list of them.
--   ElemList    src/list.c: list_init, list_append, list_push, list_remove, list_pop, list_len; the
--               links are a store from elements to elements.
--   Spinlock    src/sync_spinlock.c: acquire and release as steps that any number of processors
--               take in any order (`Step`, `Reachable`); push_off and pop_off.
--   Pipe        src/fs_pipe.c: pipe_write, pipe_read, pipe_close and the part of pipealloc that
--               fills in the pipe. A call ends by returning, by returning -1, or asleep.
--   FileTable   src/fs_file.c: fileinit, filealloc, filedup, fileclose; a file is its index. In
--               FileTable/Access fileread and filewrite on a pipe, a FAT32 file or a device, whose
--               functions are an argument, fdalloc and fdalloc2.
--   Console     src/console.c: consoleinit, consoleread, consolewrite, cons_putc, cons_puts,
--               cons_puts_n; in Console/Printing printint, printptr and vprintk of src/stdio.c.
--               put_digits is the `do` of printint, with the characters left in the buffer in
--               place of the index; `vprintk` takes the values of va_arg in a list.
--   PageTable   src/mm_page_table.c: entries, find_pte, find_pte_create, map, unmap, pt_new,
--               pt_free. The memory gives the word at a page number and an index; a Pte pointer is
--               such a pair. `flags | x` and `(ppn << 10) | flags` are sums, as their parts share
--               no bit.
--   UserMemory  src/mm_page_table.c: va2pa, copyin2, copyout2, copyinstr2.
--   Buffer      src/fs_buf.c and src/fs_disk.c: the cache as the array of its buffers and the list
--               of their indices from the most recently used on; bget is cut where it releases its
--               spinlock (pick_buf, lock_buf), and fill_buf is the `if` of bread.
--   Fat32       src/fs_fat32.c: what fat32_init reads from the card (read_boot_sector,
--               read_info_sector), the allocation table (read_fat, write_fat, alloc_clus,
--               free_clus), and in Fat32/Entry the files (reloc_clus, rw_clus for a read and for a
--               write, eread, ewrite, etrunc). It reads and writes sectors as such: Buffer shows
--               that bread gives what the card holds. Fat32/Name has the names (formatname,
--               generate_shortname, cal_checksum) and paths (skipelem), as lists of bytes without
--               the 0; Fat32/Directory the entries of a directory: enext (enext_loop is its `for`,
--               enext_entry a round of it), read_entry_name, read_entry_info, in
--               Fat32/Directory/Entries emake (dentries are the entries that it writes), eupdate
--               and eremove, and in Fat32/Directory/Lookup the loop of dirlookup (search). The
--               proofs on emake and enext go from the bytes of one entry (Parts, LongName) over
--               the entries of a name (RoundTrip, ReadBack) to the disk (OnDisk, Sectors,
--               Writing, Shapes, Stored).
--
--   Task        src/tk_manage.c, src/tk_proc.c, src/tk_task.c: the lists of the scheduler, run (one
--               round of its loop), sleep (up to its switch; awake is what follows), wakeup_fromwq,
--               wakeup_fromsv, suspend_current_and_run_next; in Task/Family exit, waitpid and fork.
--               One processor runs tasks: main never gets past task_run, so hart 1 is not
--               released. waitpid is cut where it sleeps (wait_round is a round of its loop).
--
-- Numbers. Machine integers are natural numbers with the wrap-around written out (`% 2 ^ 32` for
-- uint, `% 2 ^ 64` for uintptr_t); subtractions that can wrap add the modulus first.
--
-- Fuel. A `for` with a counter takes its number of rounds. The loops on fuel are merge_loop (one
-- more round than the heap has entries, and each takes one out), read_sectors, write_sectors,
-- eread_loop, ewrite_loop and the loops of the copies (one more round than there are bytes, and
-- each round takes at least one), shorten (two more rounds than the name has bytes, and each goes on
-- by one at least), vprintk_loop (one more round than the format has characters, and each takes at
-- least one) and free_chain (three more rounds than the volume has clusters: a chain without a loop
-- is shorter). The walks of ElemList, enext and search take their bound as an argument; list_len
-- shows that more rounds than elements are enough. The theorems on frame_dealloc, eread, copyin2,
-- generate_shortname and etrunc show that the run is an `ok`, so the fuel is enough.
--
-- Arguments that stand for what is not under the source files: the card (a function from sectors
-- to bytes), the answers of either_copyin and either_copyout in Fat32 and Console and of copyin2
-- and copyout2 in Pipe, the functions of devices, the linker's ekernel, the blocks of the kernel
-- heap, the calling task, and for fork the control block, the pid and the root table of the child.
--
-- Not modelled: the drivers of the chip (src/d_*.c, src/sbi.c), the traps and interrupts
-- (src/exception.c), the start-up, the assembly and the tools, since they are
-- hardware access; the system calls, the address spaces, the start of a task from an ELF file, the
-- opening of files, the cache of directory entries (eget, edup, eput) with what goes through it
-- (ealloc, lookup_path), the bitmap and the buddy allocator of the kernel
-- heap, which are left for later.
pub mod Prelude
pub mod Address
pub mod Pid
pub mod MaxHeap
pub mod Frame
pub mod Semaphore
pub mod Timer
pub mod Strings
pub mod ElemList
pub mod Spinlock
pub mod FileTable
pub mod Pipe
pub mod PageTable
pub mod UserMemory
pub mod Buffer
pub mod Fat32
pub mod Task
pub mod Console
