-- ===== src/Lib.antt =====
-- A verification library for the three kernel programming projects of this repository: a Linux
-- module that intercepts system calls (System_Call_Interceptor), a simulator of demand paging
-- (Memory_Management_Simulator), and tools that work on ext2 disk images (EXT2_File_System).
--
-- System_Call_Interceptor/interceptor.c is a set of handlers that the kernel calls: my_syscall for
-- the four commands, interceptor in the slot of an intercepted system call, my_exit_group in that
-- of exit_group, init_function and exit_function when the module is loaded and unloaded. They share
-- `table`, sys_call_table, two spin locks and the two saved handlers.
--   Interceptor/Kernel     the globals as one record, the locks, the write protection of the table
--   Interceptor/PidList    the list operations, add_pid_sysc to check_pid_monitored
--   Interceptor/Commands   my_syscall: intercept, release, start_monitoring, stop_monitoring
--   Interceptor/Module     interceptor, my_exit_group, init_function, exit_function
-- Each handler is a function from the record to a result and the next record, or `none` where the
-- C code would hang on a lock that it holds itself, write to a table that is read-only, or follow a
-- null pointer. `NR_syscalls` and `__NR_exit_group` are parameters, and so are the caller's uid,
-- pid, the owners of the live processes, and whether kmalloc succeeds. Calling through a saved
-- pointer is returning the handler that is called. The handlers run one at a time: what two
-- processors interleave between two critical sections is not modelled. `listcount` is an integer without
-- a bound, where the C code has an `int`.
--
-- Memory_Management_Simulator translates each address of a trace with find_physpage (pagetable.c),
-- which takes frames by allocate_frame, asks the replacement algorithm for a victim through the
-- three functions of `struct functions`, and writes victims to the swap file (swap.c).
--   Memory/Bitmap          the bitmap of the swap slots
--   Memory/State           the simulated machine: coremap, page tables, memory, counters
--   Memory/Swap            swap_pagein and swap_pageout; the file and the memory for page tables are
--                          a parameter, `Device`
--   Memory/Pagetable       find_physpage and allocate_frame, for any algorithm `Algorithm`
--   Memory/Pagetable/Print     the lines that print_pagetbl and print_pagedirectory print
--   Memory/Pagetable/Coherent  when coremap and page tables agree, and `Lawful`, what pagetable.c
--                          relies on of an algorithm
--   Memory/Fifo, Memory/Rand, Memory/Clock, Memory/Lru   four replacement algorithms
--   Memory/Opt             opt.c: the linked list of the pages in frames, with Memory/Opt/Trace for
--                          opt_init
--   Memory/Sim             access_mem and replay_trace (sim.c)
--   Memory/Main            main of sim.c and its table `algs`, swap_init (swap.c) and init_pagetable
--                          (pagetable.c)
-- A page table entry is numbered 4096 * i + j, for entry j of the table behind entry i of the page
-- directory, so that pointers to entries are numbers; a frame is its index in the coremap, and the
-- pointer that find_physpage returns is the frame that it points at. Of the 16 bytes of a simulated
-- page the two fields that the program reads are kept. `unsigned` arithmetic is written with its
-- remainder by 2 ^ 32. Loops are structural recursion on the number of rounds that are left, which
-- is the bound of the C loop; the loop of clock_evict, which has none, is given memsize + 1 rounds,
-- since one turn clears the reference bit of every page. The trace is a list of lines, and sscanf,
-- which reads them, is a parameter. The walks of opt.c through a list have as many rounds as there are
-- nodes, which is enough since no node is in a list twice. opt.c finds the page that is referenced by
-- its place in the trace and not by the page table entry, so that what is stated of it is about its own
-- list and the trace; the other algorithms fill the interface `Lawful`.
--
-- EXT2_File_System has tools that work on an image of a file system that is mapped into memory, on top
-- of the functions of ext2general.c.
--   Ext2/Bitmaps           update_bitmap, find_free_inode, find_free_block
--   Ext2/Disk              an image, inodes and directory entries (ext2.h)
--   Ext2/Names             splitting and comparing paths
--   Ext2/Lookup            locate_file_by_name, find_dir_entry, find_parent_inode
--   Ext2/Allocate          allocate_space_in_block
--   Ext2/Blocks            init_inode, free_all_blocks_of_inode, read_symbolic_link
--   Ext2/Ls, Ext2/Rm, Ext2/Mkdir, Ext2/Ln    ext2_ls.c, ext2_rm.c, ext2_mkdir.c, ext2_ln.c
--   Ext2/Cp                ext2_cp.c: the copy of the data, and main in Ext2/Cp/Main
-- The parts of an image are taken apart: the two bitmaps with their counts, the table of inodes, and
-- each block as the directory entries, the pointers or the bytes that it holds. A directory entry is
-- found by its block and its offset, and a write to one is not seen through an entry at another offset:
-- where the C program writes a name over the end of its entry, or an entry's fields over another's,
-- Ext2/Allocate answers `none`, as the tools do where the program follows a null pointer, inode
-- number 0 or an index past an array, or never ends. The numbers of inodes and of blocks are not
-- compared with the sizes of the table and of the image, as the program does not: the table and the
-- blocks of the model go on, and what is stated of a number past them is about memory behind the image.
-- Only in ext2_ln.c, where an index is multiplied by 128, a pointer that leaves the image is `none`.
-- A tool's main function gets its arguments, the image that read_image maps or
-- `none`, and the time, and returns its exit status with the image afterwards. The walk through a
-- block has 1025 rounds, more than a block has bytes. As many calls are left to read_symbolic_link in
-- ext2_ln.c, where an image has 128 blocks and each link takes one, and to the recursive removal,
-- whose paths grow with each call and are shorter than PATH_MAX (Ext2/Rm/Depth).
--
-- Word holds the bit operations on words, and Base the helpers that all parts share. The modules
-- named Examples apply the theorems to concrete states.
--
-- Not modelled: swap_destroy, which removes the swap file at the end, readimage.c, which prints the
-- content of an image, and the trace programs, which are input.
pub mod Base
pub mod Word
pub mod Interceptor
pub mod Memory
pub mod Ext2
