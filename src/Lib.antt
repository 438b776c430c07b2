-- ===== src/Lib.antt =====
-- osdev-graphical (AKOS), a 32-bit x86 operating system kernel in C.
--
-- Memory: utils/memory.c, over the machine's memory as 32-bit words with little-endian bytes.
-- Bits, Bitmap: the bits of a word, and the occupancy bitmap of kernel/pmm.c with its searches for a
--   free block and for a run of free blocks. kernel/heap.c repeats that code over its own array.
-- Pmm: kernel/pmm.c, the physical memory manager, as a record of its static variables.
-- Heap: kernel/heap.c, the kernel heap, as a record of its static variables and the memory that its
--   pointers lead to. Heap.Trace has every history of calls and of writes by the owners.
-- Paging: kernel/pte.c, kernel/pde.c and the address macros of deps/vmm.h, on entries as words.
-- Vmm: kernel/vmm.c, the virtual memory manager, over a directory and tables that lie in the memory
--   and in blocks of Pmm; a pointer to an entry is the address of its word. Vmm.Spec has the
--   two-level translation and the invariant that keeps tables apart.
-- Scheduler: kernel/scheduler.c, the ready queue as a list of entries with their addresses, thread
--   states, the turn of the round robin and the tick; Scheduler.Dispatch is the dispatch loop with the
--   end of terminated threads over Vmm and Process.Space, and Scheduler.Pages the search for unmapped
--   pages. The creation of threads is not modelled.
-- Strings: utils/strings.c, on buffers of bytes with a terminator.
-- Vfs: kernel/vfs.c, the table of file systems and the calls it passes on, over file systems that are
--   records of functions.
-- Fat: drivers/fat12fsys.c, the 12-bit entries of the allocation table, the search for a free cluster
--   and the transfer of bytes along a chain, over a disk of bytes by sector and offset. Directories,
--   names and mounting are not modelled.
-- Tmpfs: drivers/tmpfsys.c, the bytes of a file over its chain of blocks. The pool that blocks come
--   from, and directories, are not modelled.
-- Process: kernel/process.c, the list of processes, their open files over Vfs, and their break and
--   the kernel part of their address spaces over Vmm. Creation and termination of processes are not
--   modelled.
-- Windows: kernel/window_sys.c, the list of windows, its order and the window that a point hits;
--   Windows.Events is a window's event queue, Windows.Listener the ring of requests to the listener
--   process, as a step relation with every interleaving. Painting is output and is not modelled.
-- Input: drivers/keyboard.c and drivers/mouse.c. Input.Keyboard and Input.Mouse are the interrupt
--   handlers, from the bytes of the controller to the event queue of the working window and to the
--   threads that it wakes, over Windows and Scheduler; Input.Line is the line editor over a buffer.
-- Clock: drivers/timer.c and drivers/cmos.c, the time of day and where it starts from.
-- Network: utils/network.c, byte order and the way of a received packet down the protocols.
-- Descriptors: kernel/gdt.c, kernel/idt.c and kernel/tss.c, tables as functions of the index.
-- Dma, Floppy: drivers/dma.c and drivers/floppy.c, as the writes to ports and the attempts that the
--   controller's answers lead to.
-- TextEditor: root/bin/tedit.c, the text as lines of chained regions: reading and writing a file,
--   the insertion and removal of a character inside a line and the movements of the cursor. New lines
--   and the join of two lines are not modelled.
-- The shell, the network card, the screen driver and the other user programs are not modelled: they
--   are input and output around these parts, or examples.
-- Base: shared names, tests on numbers and arrays as lists.
--
-- A function that updates static variables returns the new record beside its result; the null
-- pointer is 0, and the -1 of the bitmap searches is `none`. Unsigned arithmetic wraps where the
-- source's can; addresses of a caller's range are taken not to wrap. Loops are recursions on the
-- rounds left; `strcpy` has fuel, and ends when the fuel exceeds the length of the string. The loop of
-- the break has fuel for every page of the address space, and a digit loop for 32 digits, which are
-- enough for 32-bit numbers; a FAT12 transfer has fuel for the clusters it passes.
pub mod Base
pub mod Bits
pub mod Memory
pub mod Bitmap
pub mod Pmm
pub mod Fat
pub mod Heap
pub mod Paging
pub mod Vmm
pub mod Scheduler
pub mod Strings
pub mod Windows
pub mod Vfs
pub mod Process
pub mod Tmpfs
pub mod Input
pub mod Clock
pub mod Network
pub mod Descriptors
pub mod Dma
pub mod Floppy
pub mod TextEditor
