-- ===== src/Lib.antt =====
-- Verification of the core of this OS/161 kernel. Its virtual memory system: the frame table
-- (kern/vm/frametable.c), the hashed page table and the page faults (kern/vm/vm.c), the address
-- spaces (kern/vm/addrspace.c), and below them the kernel heap (kern/vm/kmalloc.c) and the boot
-- allocator (kern/arch/mips/vm/ram.c).
-- Its copies between the kernel and user memory (kern/vm/copyinout.c).
-- Its process table (kern/proc/pid.c), and its file tables (kern/syscall/filetable.c).
--
-- How the parts interact: ram.c hands out memory until frametable_bootstrap takes over what is left
-- of it. alloc_kpages and free_kpages serve whole frames to the kernel heap and to the page table,
-- with a reference count for each frame. A page fault looks the address up in the page table; a
-- miss makes an entry on a fresh frame, a write to an entry that shares its frame copies it, and the
-- result goes into the TLB. A fork shares the frames of all pages of a process with the new one.
--
-- Files:
--   Common     names that all modules share, tests on numbers, lists, integers
--   Machine    the constants and address conversions of the MIPS port
--   Ram        kern/arch/mips/vm/ram.c: Ram is firstpaddr and lastpaddr
--   Frames     kern/vm/frametable.c: FrameTable is the array of entries with firstfreeframe
--   Kmalloc    what the clients of kern/vm/kmalloc.c rely on: Kmalloc has the operations, and
--              KmallocLaws what they promise
--   Kheap      kern/vm/kmalloc.c: KHeap is the roots of the pagerefs, the pagerefs and the lists of
--              pages; Kheap/Implements fills the interface of Kmalloc with it
--   AddrSpace  the regions of kern/vm/addrspace.c
--   PageTable  the entries and chains of kern/vm/vm.c
--   Fault      vm_bootstrap and vm_fault of kern/vm/vm.c
--   Tlb        as_activate and as_deactivate of kern/vm/addrspace.c
--   Complete   as_complete_load of kern/vm/addrspace.c
--   Fork       copy_page_table of kern/vm/vm.c
--   Destroy    as_destroy of kern/vm/addrspace.c
--   Copy       as_copy of kern/vm/addrspace.c
--   Copyinout  kern/vm/copyinout.c: the four copies between the kernel and a user
--   Pid        kern/proc/pid.c: Pids is the array of slots with nextpid and nprocs
--   Files      kern/syscall/filetable.c and the reference counts of kern/syscall/openfile.c
--   FileCalls  open, close and dup2 of kern/syscall/file_syscalls.c
--   Tests      the theorems on a small machine
--
-- Conventions: a function of the model has the name of the function in the code. State is passed
-- explicitly; an operation that would follow a null pointer, leave an array or fail a KASSERT is
-- `none`, and the theorems say when this does not happen. A 32-bit word is a number, with its
-- wrap-around written out where the code could overflow. A frame of memory is a function from
-- offsets to bytes, and the frame table a function from frame numbers to entries with a bound. A
-- chain of page table entries is a list, and a pointer to an entry is the entry that the search
-- finds. All loops are over the rounds that are left or over a list; the only loop without a bound of
-- its own, that of pid_alloc, has the 261 rounds that its assertion leaves, which are enough.
--
-- The kernel heap keeps its blocks on pages from alloc_kpages. The list of the free blocks of a page,
-- which the code threads through the blocks themselves, is a list of offsets; a pageref is known by
-- its place among the 16 roots of 256. To say which blocks are in use the model records for each
-- frame what the heap uses it for, which the code does not. A heap is sound when each page of blocks
-- has one pageref that describes it, its free blocks are distinct and aligned, and each root counts
-- its bits. Its books are in order while each root that counts pagerefs has a page. kmalloc can lose
-- that when it fails for lack of a page, and a later kfree then fails an assertion: kfree is `none`
-- there, and with it the fault, the copy or the destruction of an address space that has called it.
-- The theorems about these have the case, with the books out of order, as an outcome of their own.
--
-- The invariant of the system, IsVm, says that the free list is the list of its frames, without
-- repetition, all unused; that a frame that page table entries refer to is in use, does not belong to
-- the heap, and counts just these entries; and that the page table is large enough for its hash.
--
-- Each slot of a sound process table holds a process whose number belongs there, and none that has
-- exited without a parent to ask for its status; nprocs is the number of used slots. Each open file
-- counts just the descriptors, of the table at hand and elsewhere, that refer to it.
--
-- User memory answers a read with a byte, or with `none` where the access would end in copyfail, and
-- says of each address whether it may be written to. setjmp and longjmp become the end of the loop at
-- the first such access, with what has been written so far. The memcpy is taken byte by byte, which
-- its copies of whole words do not change, since a word never lies on two pages.
--
-- Where an operation asks a layer that is not modelled, the answer is an argument: whether kmalloc
-- finds memory, what vfs_open returns, and in
-- open what copyinstr does.
--
-- Not modelled: locks and interrupts, since each operation is run alone; the assembly that writes to
-- the TLB, whose contents are part of the state; the debugging modes of kmalloc.c, which are off,
-- and the contents of freed blocks; lseek, read and write.
pub mod Common
pub mod Machine
pub mod Ram
pub mod Frames
pub mod Kmalloc
pub mod Kheap
pub mod AddrSpace
pub mod PageTable
pub mod Fault
pub mod Tlb
pub mod Complete
pub mod Fork
pub mod Destroy
pub mod Copy
pub mod Copyinout
pub mod Pid
pub mod Files
pub mod FileCalls
pub mod Tests
