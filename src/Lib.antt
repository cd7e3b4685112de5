-- ===== src/Lib.antt =====
-- SudoOS: a verification library for the kernel's core.
--
-- SudoOS is a small x86-64 kernel in C, loaded by Limine. At boot `pmm_init` sets up the bitmap of
-- physical pages from the loader's memory map; page tables, heap, stacks and user memory then take and
-- return pages. The timer interrupt counts slices and calls the scheduler, the keyboard interrupt fills
-- a ring buffer that readers empty, and system calls reach a file system in memory, whose path
-- resolution uses the kernel's string routines.
--
-- Which file models which part:
--   Prelude   shared names, native lists, machine words, bits of a byte, counting, `int`
--   Mm.Pmm    kernel/src/mm/pmm.c: the page allocator. `Pmm` holds its globals; `pmm_set_free`,
--             `pmm_set_busy`, `pmm_alloc_page` and `pmm_free_page` have the C names. Children: the bits
--             (Bitmap), the invariant (Valid), ranges of pages (Ranges), allocation (Alloc), release
--             (Free), and the clients that hold pages (Owners)
--   Mm.Boot   `pmm_init` of the same file
--   Mm.Paging kernel/src/mm/paging.c: the page tables as functions from the address of a table's page and
--             an index. Children: the walk and the invariant of a tree of tables (Walk), a new table
--             (Grow), one step (Step), the last entry (Leaf), `vmm_map_page` (Map), ranges and
--             `paging_init` (Range)
--   Mm.Heap   the kernel heap of kernel/src/mm/pmm.c, on the page tables: the blocks in memory and `kfree`
--             (Tiles), `kheap_expand` (Grow), `kmalloc` (Serve)
--   Mm.Vmm    the address spaces of kernel/src/mm/vmm.c on the heap and the page tables, and the kernel
--             stacks of kernel/src/mm/pmm.c: loops that map new pages (Fresh), `mm_map_range` (Range),
--             `kstack_init` (Stack)
--   Drivers.Keyboard   kernel/src/drivers/keyboard.c: the ring buffer as a queue (Queue), and the
--             handler against a table of keys (Scan); `kinput`, whose loop `getline` of usr/shell.c has too
--             (Input)
--   Drivers.Console   kernel/src/drivers/console.c: the history of lines, the cursor and the view; their
--             bounds (History), `kprintf` (Format), and the arguments that a format asks for (Typed)
--   Proc.Sched   `schedule` of kernel/src/proc/sche.c, `timer_callback` of kernel/src/arch/timer.c and
--             `kthread_exit` of kernel/src/proc/proc.c: the queue's invariant (Valid, Steps), the round
--             robin (Fair), and a process that is preempted while it is alone (Lost)
--   Proc.Create   the creation of processes in kernel/src/proc/proc.c: what steps leave of other processes
--             (Fork), the child of `sys_fork` (Child), its outcomes (Outcome, Forked), the descriptors (Files)
--   Klib      kernel/src/lib/string.c: whole strings and buffers (Compare), `strtok_r` (Tokens), and
--             numbers as text (Digits)
--   Klib.Links   kernel/src/lib/list.h: the fields of all nodes; rings as lists (Ring), the walk along a
--             ring (Segs, Splice), and sequences of operations (Runs)
--   Usr.Malloc   `malloc` and `free` of usr/lib/stdlib.c, `sbrk` of usr/lib/syscall.c and SYS_BRK of
--             kernel/src/arch/interrupts.c; the layout of the blocks (Blocks). Whether the kernel's
--             `mm_map_range` maps a range is an argument
--   Usr.Atoi  `atoi` of usr/lib/stdlib.c, against the `itoa` of usr/lib/stdio.c
--   Usr.Strtok, Usr.Shell   `strtok` of usr/lib/string.c, and how usr/shell.c reads a command
--   Usr.Memory, Usr.Stdio   `memmove` of usr/lib/string.c, and `printf` of usr/lib/stdio.c, the reversal of
--             its digits (Flip) and its agreement with `kprintf` (Same)
--   Fs.Ramfs  kernel/src/fs/ramfs.c: tables (Types), `resolve_path` (Path), the operations (Ops), and
--             reading and writing an open file (File), the rounds of path resolution (Fuel), and
--             directories, status and `ramfs_init` (Dirs), `ramfs_getcwd` (Cwd), and what each operation
--             does to the descriptors (Fds)
--   Arch.Gates   `gdt_set_gate` of kernel/src/arch/gdt.c and `idt_set_gate` of kernel/src/arch/idt.c
--   Arch.Tables   the tables that `gdt_init` and `idt_init` of the same files fill
--   Arch.System, Arch.Syscall   the state that system calls work on, composed of the parts above, and
--             `syscall_handler` of kernel/src/arch/interrupts.c, one function for each case; what a case
--             can change (Keeps), valid systems and other processes (Alone), and who owns which open file
--             (Owned, Fds)
--   Arch.Isr  `isr_handler` of the same file
--
-- The globals of a C file are the fields of a record; a function takes the record and returns the new
-- one. Words of 64 bits are native numbers with the wrap-around written out (`add64`, `sub64`, `mul64`).
-- Where C is undefined, the file system returns `fault`, numbers and formats are `none`, and the
-- allocator's invariant excludes it. A page fault of the heap or on a new stack is `none`.
-- The words on the kernel's stacks and the bytes of user memory are functions of an address.
-- The messages of system calls and exceptions are modelled, those of other parts are left out.
-- `switch_to` and port input and output are not executed: `schedule` returns the arguments of the switch,
-- the keyboard handler takes the byte that it reads as an argument, and `isr_handler` returns the ports and
-- bytes that it writes.
--
-- Bounds and fuel: a page number is at most 2 ^ 52, since addresses are below 2 ^ 64. `resolve_path`
-- reads at most 127 bytes and each round of its loop takes at least one, so fuel 128 is enough.
-- `itoa_uint64` has fuel 64 and `itoa` fuel 32, the sizes of their buffers, which the digits of a 64-bit
-- value and of an `int` never exceed.
-- `kmalloc` calls itself after each growth of the heap, which takes a page, so more fuel than there are
-- free pages is enough; `kmalloc_all` gives it that much. `ramfs_getcwd` has as many rounds as its
-- buffer has bytes, since each round adds one.
-- The other loops are recursions on lists or on counts of rounds that come from the C bounds.
--
-- Not modelled: the loading of programs and `do_execve`. The handler's answer for SYS_FORK and SYS_EXECVE is
-- the state in which it calls `sys_fork` or `do_execve`; `sys_fork` is in Proc.Create, on more state.
-- Nor are the loads of the descriptor tables and of CR3, drawing on the screen, the start-up code, the
-- assembly, and the commands of the shell.
pub mod Prelude
pub mod Mm
pub mod Drivers
pub mod Arch
pub mod Proc
pub mod Usr
pub mod Klib
pub mod Fs
