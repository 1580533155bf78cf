-- ===== src/Lib.antt =====
-- SystemN, a RISC-V kernel (Sv39, four harts) in C: its locks, lists, scheduler, timer, memory
-- allocators, page tables, console, strings, system calls and traps, the creation of processes, and
-- the boot in machine mode and in supervisor mode.
--
-- How the parts interact. A trap enters kernel/trap/trap.c, which runs a system call of
-- kernel/syscall.c or the timer interrupt of kernel/timer.h; either may ask for schedule of
-- kernel/sched.c, which moves processes between the intrusive lists of kernel/list.h. System calls
-- reach user memory through kernel/mm/user_copy.h, the console through kernel/uart.c, and the page
-- tables of kernel/mm/pagetable.c, whose pages come from kernel/mm/mem.c. kernel/mm/snub.c cuts
-- pages into small objects. The locks of kernel/spinlock.c guard the allocators and the console.
-- kernel/start.c makes the memory in machine mode: it fills the allocator, maps the kernel with its
-- pages, and turns va_offset to the kernel's virtual addresses. In supervisor mode it sets up a
-- hart's queues and its idle process, and on hart 0 runs the shell, which create_proc of
-- kernel/proc.c makes with the pages, tables and objects of the allocators. The shell of
-- kernel/shell.c calls the kernel through kernel/user.h.
--
-- The files:
--   Base          tests on numbers, lists and bits that the parts share; Base/Flags reads single bits
--                 of a register
--   Spinlock      kernel/spinlock.c: spin_lock, spin_trylock, spin_unlock and a hart's lock_depth.
--                 Spinlock/Nesting runs nested sections on one hart, with a program as a tree;
--                 Spinlock/Harts is a step relation with a move for each shared access, and
--                 Spinlock/Exclusion its invariant
--   Queue         kernel/list.h: each statement a write to a store of next and prev words.
--                 Queue/Ring says which list a ring of links stands for; Queue/Add, Queue/Delete and
--                 Queue/Frame prove the operations
--   Proc          kernel/proc.h: process, context, trap frame, and the state of one hart
--   Sched         kernel/sched.c: schedule. Sched/Queues is the well-formed state of the two queues,
--                 Sched/Rotation the refinement, Sched/Fairness repeated calls
--   Timer         kernel/timer.h: timer_handle; Timer/Wake what it wakes
--   Uart          kernel/uart.c; Uart/Decimal, Uart/Hex and Uart/Lines one function each
--   Str           kernel/string.c
--   Buddy         kernel/mm/mem.c, with pages by index in place of pointers to their structs;
--                 Buddy/Regions the division of memory, Buddy/Refusal what free_pages refuses.
--                 Buddy/Tiling says how blocks divide the pages and Buddy/State what the page structs
--                 and free lists say of it. Buddy/Extend and Buddy/Populate are the initialisation;
--                 Buddy/Take and Buddy/Split lead to Buddy/Allocate; Buddy/Unlink, Buddy/Merge, Buddy/Address,
--                 Buddy/Coalesce and Buddy/Rounds lead to Buddy/Free. Buddy/Pages makes the allocator an
--                 instance of PageTable/Supply
--   PageTable     kernel/mm/pagetable.c; PageTable/Entry the encoding of entries,
--                 PageTable/Mapping the walk and the two operations, PageTable/Tree whole tables.
--                 PageTable/Shape says when tables form a tree and what it translates an address to,
--                 PageTable/Fresh links a new table, PageTable/Supply is what is asked of an allocator
--                 of pages, and PageTable/Grow and PageTable/Update follow walk and map_page with it;
--                 PageTable/Moved is the same tree at another va_offset, and PageTable/Remove is unmap_page
--   Snub          kernel/mm/snub.c; Snub/Classes and Snub/Release
--   Machine       the state that the system calls share, and the monad of their results
--   Syscall       kernel/syscall.c and kernel/mm/user_copy.h; Syscall/Console, Syscall/Sleep and
--                 Syscall/Heap follow the calls
--   Trap          kernel/trap/trap.c: syscall_handler and trap_handler; Trap/Dispatch what a
--                 system call leaves of the trap frames
--   Creation      kernel/proc.c: the state and the monad of create_proc; Creation/Steps its steps
--                 and copy_kernel_mappings, Creation/Create the whole and free_proc; Creation/Effect
--                 and Creation/Made follow the steps, Creation/Failed free_proc on a failure, and
--                 Creation/Queued the whole
--   Boot          kernel/start.c in supervisor mode; Boot/First the state it leaves. Boot/Early is
--                 mm_init, which Boot/Ranges, Boot/Mapped and Boot/Init follow; Boot/Start is start,
--                 and Boot/Harts follows it on two harts
--   User          kernel/user_syscall.h, kernel/user.h and kernel/shell.c: programs, and their runs on
--                 the kernel. User/Calls follows a call into the kernel and back, User/Wait one that
--                 makes the process wait; User/Compare is streq, User/Bytes memory by bytes, and User/Shell a
--                 round of the shell
--   Tests         runs at concrete inputs
--
-- Numbers. An unsigned long is a number below 2^64 with its wrap-around written out; a signed long
-- is its bit pattern, so that -1 is 2^64 - 1. A pointer is the address of its object.
--
-- Loops and fuel. Loops with a counter are structural. memset and strlen take one
-- round more than bytes. The timer's loop takes fuel, and one round
-- more than there are sleepers is enough; the loops of sys_sbrk and sys_munmap take fuel, and for
-- sys_sbrk one round more than user memory has pages is enough, for both one more than the address
-- space has. The walk of a free list in Buddy takes fuel, and one round more than the list has
-- blocks is enough; the first filling of the lists takes one round more than there are pages, and
-- mm_init the same. The loop of the shell takes its rounds. load_binary takes the pages of the
-- program, free_pagetable the depth of the tables.
--
-- Waits for ever. A hart that halts on a failed check is panic (stuck in Machine); input that never
-- arrives, a string without a terminator, and a hart that waits for hart 0 in start are none.
--
-- Parameters. The system calls and the small objects take the page allocator as a record of
-- alloc_page and free_page, which the buddy allocator fills for the boot. The clock's readings,
-- scause, and the addresses that the linker chooses are arguments.
--
-- User memory. A system call reaches an address of a process if the tables in satp map it with the
-- flags that the access needs; if not, the hart halts on the page fault. Programs themselves are taken
-- to touch memory that is mapped. The trap entry stores sepc as an argument, the same for the calls of a
-- run.
--
-- Views of memory. A process, its trap frame and its queue node are records of their own beside the
-- words that hold page tables and small objects, and the bytes of a program's pages are a third store.
--
-- Not modelled: assembler (kernel/entry.S, kernel/swtch.S, kernel/trap/trap_vec.S), the file
-- systems (kernel/fs, which the build leaves out and which do not compile), memory ordering, the
-- TLB, bits of registers that the hardware fixes, and what is printed for debugging.
pub mod Base
pub mod Spinlock
pub mod Queue
pub mod Proc
pub mod Sched
pub mod Timer
pub mod Uart
pub mod Buddy
pub mod Str
pub mod PageTable
pub mod Snub
pub mod Machine
pub mod Creation
pub mod Boot
pub mod Syscall
pub mod Trap
pub mod User
pub mod Tests
