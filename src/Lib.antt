-- ===== src/Lib.antt =====
-- JadeHub/8632, a small i386 kernel with its drivers and C library.
--
-- The kernel is a set of C files with static state. Its memory code hands out physical frames
-- (kernel/memory/phys_mem.c), maps them into page directories (kernel/memory/paging.c), and runs
-- a heap on the pages (kernel/memory/kheap.c) that keeps its holes in an ordered array
-- (kernel/memory/ordered_array.c). Its scheduler (kernel/tasks/sched.c) links threads into a
-- ready list and switches between them on ticks, blocking calls and waking. The keyboard driver
-- (drivers/keyboard) decodes scan codes at interrupts, calls the console's handler and wakes the
-- readers of its device, which block through the scheduler. The console edits a line with these
-- codes (drivers/console/line_buff.c) and keeps the lines entered (history.c); console.c hands a
-- line that Enter ends to the readers of the console through a circular buffer, and shows what
-- is written on the text screen (drivers/display.c), with a few escape sequences. Signals
-- (kernel/signals) are delivered when an interrupt returns, by changing the saved registers.
-- Byte buffers between an interrupt and a reader are the circular buffers of
-- kernel/types/cbuff.c; the kernel and the programs share the C library's string routines
-- (libc/string) and its formatted output (libc/printf_helper.c). A process opens files by path
-- (kernel/io/io.c) through the nodes of kernel/vfs, whose callbacks belong to the file systems,
-- one of them the RAM disk (kernel/ramfs); the table of a process is found in a hash table
-- (kernel/types/hash_tbl.c) of linked rings (kernel/types/list.h).
--
-- The state of a component is a record with the source's fields, an operation is a function from
-- the state to the new state and its result, and a failed ASSERT is the result `none`, except
-- where a file's comment says otherwise. Fields of 8, 32 or 64 bits are native numbers with the
-- wrap-around written out; subtraction on 32 bits is `sub32`. Booleans are Bool.
--
--   Common        the shared names: Boolean tests, lists by native index, bit operations, integers
--   Cbuff         kernel/types/cbuff.c, both widths as a parameter; Cbuff.Queue is the abstract
--                 queue, Cbuff.Inv the invariant, Cbuff.Refine relates the two
--   OrderedArray  kernel/memory/ordered_array.c; the predicate is a parameter. The storage is a
--                 list, of which the first `size` items count
--   PhysMem       kernel/memory/phys_mem.c, the part from pmm_init on: the index of frames is a
--                 list of 32-bit words, what kmalloc returned is a parameter
--   Paging        kernel/memory/paging.c over PhysMem; tables and directories stand in stores by
--                 address, the memory of a new table is a parameter
--   KHeap         kernel/memory/kheap.c over OrderedArray and Paging; KHeap.Grow, KHeap.Ops,
--                 KHeap.Release and KHeap.Kmalloc hold its functions, and headers and footers
--                 stand in stores by address
--   Keyboard      drivers/keyboard/keyboard.c, with KeyCodes (libc/include/sys/key_codes.h) and
--                 Keyboard.ScancodeTables (drivers/keyboard/kb_scancode_tables.c), Keyboard.Layout the
--                 keys of a US keyboard, and Keyboard.Held the events held; the port read is
--                 an argument, calls out are listed as effects
--   CString       libc/string and streq of kernel/utils.h; a pointer is the list of bytes from it on
--   LineBuff      drivers/console/line_buff.c and history.c; a history is the list of its strings
--   Console       drivers/console/console.c, which joins Keyboard's events, LineBuff, Cbuff and Display;
--                 Console.Lines holds its keys, its readers and its start
--   Display       drivers/display.c; video memory is a list of cells
--   Numbers       libc/stdlib/atoi.c and libc/ctype/isspace.c
--   Printf        libc/printf_helper.c: `_emit` and `_emit_str`; Printf.Format has the conversions and the
--                 loop over the format, with vsnprintf, vsprintf (libc/stdio/sprintf.c), vprintf
--                 (libc/stdio/printf.c) and isdigit. Arguments are 32-bit words, and a string stands under
--                 its address
--   Ring          kernel/types/list.h, with the links in a store by address
--   HashTbl       kernel/types/hash_tbl.c over Ring
--   Vfs           kernel/vfs/vfs.c, node.c and root_node.c: paths and the nodes they lead to, and in
--                 Vfs.Driver the calls of the callbacks, which are parameters; a file
--                 system's find_child is a function on the text of a name
--   Ramfs         kernel/ramfs/ramfs.c: the tree of the RAM disk, with its nodes and lists in stores
--   Io            kernel/io/io.c: the descriptors, over Vfs; Io.Open holds io_open and what it
--                 calls, and Io.Reads the reads of files on the RAM disk
--   Signals       kernel/signals/signal.c; the running process is an argument
--   Clock         drivers/cmos/cmos_clock.c; the rounds of register reads are an argument
--   Sched         kernel/tasks/sched.c; threads stand in a store by address
--
-- Bounds and fuel. The loops over arrays recurse on the number of rounds left, which the
-- source's own bound gives. The loop of _pop_first_ready follows pointers and takes fuel; a fuel
-- above the length of the ready list is enough. heap_alloc calls itself after an expansion and
-- takes fuel; one call is enough where a hole is found. The clock's loop runs on the rounds of
-- reads that it is given. The string loops recurse on the list that stands for the memory. The
-- loop over a format takes fuel for its bytes, the walk along a path and _add_file_index fuel
-- for its bytes, and the search of a hash chain fuel above the length of the chain.
--
-- Not modelled: port input and output, processor tables and assembly, which have no state that
-- the C code decides on; the library in drivers/fat, a copy of another project; and processes,
-- devfs and the FAT file system, open directories, and the loader. In the scheduler, sched_exit
-- and sched_ontick are missing: both unblock threads in a loop that a switch can leave half way.
-- Interrupts do not fall into the middle of an operation.
pub mod Common
pub mod Console
pub mod Display
pub mod Cbuff
pub mod OrderedArray
pub mod PhysMem
pub mod KeyCodes
pub mod Keyboard
pub mod Numbers
pub mod CString
pub mod Sched
pub mod LineBuff
pub mod Signals
pub mod Clock
pub mod Ring
pub mod HashTbl
pub mod Vfs
pub mod Io
pub mod Ramfs
pub mod Printf
pub mod Paging
pub mod KHeap
