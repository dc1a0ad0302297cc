-- ===== src/Lib.antt =====
-- The verification library of the quark kernel, a small microkernel for x86.
--
-- Parts of the program, and the files that model them:
--   * Base: tests, lists, integers, and code that may fault (Base.Fault).
--   * Status: the error codes of include/types/status.h.
--   * Avl: src/avltree.c, the search tree of the kernel's tables. A tree is a value, since one
--     pointer owns it and a node is linked from one place. `avl_insert`, `avl_remove`, `avl_get`
--     and the rotations are functions of the same names; `insert_balance` and `remove_balance` are
--     what follows the recursive call, and `avl_unlink` is the branch where the key is found.
--   * PriorityQueue: src/priorityqueue.c, a binary heap in an array of fixed capacity, the
--     kernel's ready queue. `load` and `store` fault past the array. `heapify` and `sift_up` run on
--     fuel of one more than the size, or than the index; each step goes down, or up, one level, so
--     this fuel is enough.
--   * Queue: src/queue.c, a linked queue with its nodes in a memory. Its abstract view
--     is the list of its items, which is what the kernel's structures hold.
--   * Strings: src/string.c over a memory of bytes. `strlen` and `strcpy` run on fuel; more than
--     the length of the string is enough. The overflow of the counter of `strlen`, an `int`, is a
--     fault.
--   * Kernel: src/kernel.c and src/syscalls.c. Kernel.State has the structures of
--     include/kernel.h, with `struct kernel_t` as the record `Kernel`, to which the memory that it
--     points to is added. Kernel.Monad has the steps over this state. Kernel.Ports models
--     `kernel_create_port`, `kernel_remove_port` and `kernel_get_port_owner`; Kernel.Scheduler
--     models `kernel_advance_scheduler` and `kernel_terminate_process`; Kernel.Messages models
--     `kernel_send_message`, `kernel_queue_message`, `receive_message` and the call `send`;
--     Kernel.Syscalls models `set_syscall` and `do_syscall`, where the call of a function pointer
--     is an argument; Kernel.Interrupts models the handlers of interrupts, and Kernel.Spawn
--     `kernel_spawn_process` over the kernel and the machine. Kernel.Start is the part of
--     `kernel_initialize` that sets up the kernel's state and its system calls.
--   * Paging: src/x86/paging.c, the page tables of two levels. A machine is the entries of every
--     page frame, the frame of the loaded top table, and the replies of the allocator of frames.
--     An access through the window at 0xFFC00000 is the walk that the processor makes, so a table
--     that is missing is a fault. `get_pte_pointer`, `set_pte` and the others have their names;
--     Paging.Tree has the invariant of the loaded tables.
--   * PageMap: src/mmgr.c, with `map_page`, `unmap_page`, `page_type` and `create_address_space`. A
--     loop over the levels has a round for each level. PageMap.Translate has the translation of
--     addresses that these operations edit.
--   * MemoryCalls: the calls `mmap` and `munmap` of src/syscalls.c. The loops of `mmap` have a round
--     for each page; that of `munmap` runs on fuel, and has no result where the fuel ends.
--   * Heap: src/heap.c, with `kmalloc` and its `map_block`, a round for each page of the block.
--   * Logarithm: src/math.c. Console: src/x86/putc.c, the screen and its cursor. Printing:
--     src/stdio.c, with `itoa` over its array, and `printf` over the console. Context:
--     src/x86/context.c, the stack of a process over a memory of bytes.
--   * Descriptors: src/x86/idt.c, the tables of segments and of interrupt gates, the task states, and
--     the registers that hold them. Descriptors.Fields and Descriptors.Routing have the processor's
--     reading of the bits.
--   * Apic: src/x86/apic.c, the local interrupt controller and its registers, with the 8259
--     controllers as Apic.Pic has them; `read_msr` is an argument.
--   * Multiboot: src/x86/multiboot2.c, the reader of the boot loader's table over a memory of bytes.
--     The loops and the copies of strings run on fuel: the rounds for the tags are two more than the
--     tags, and the fuel is more than the entries of a map or the length of a string. The abstract view
--     is a list of tags and what they say (Multiboot.Tags, Multiboot.Summary).
--   * Elf: src/elf.c, the loader of programs over the machine and the bytes of its memory, which are
--     read and written by the translation of the loaded page tables. The fuel for a segment is more than
--     its pages.
-- The kernel keeps its processes and its ports in two trees, its ready processes in a priority
-- queue, and the process that runs in `active_process`. A process that receives without a message
-- waits outside the ready queue, and the sender of a message puts it back.
-- The system calls `mmap` and `munmap` and the heap map pages through the page map, which takes
-- frames from libmalloc and edits the page tables.
--
-- A pointer is a number with NULL as 0, and an `int` key or priority is its offset from INT_MIN.
-- A fault, an access through NULL or past an array, is `none`; so is a panic. The memory of a user is
-- there at every address but NULL in the model of messages. The allocator is
-- libmalloc, which is not part of the repository: its call `reserve_region` is
-- answered by the replies of the machine, or by an argument. Outside Heap, what `kmalloc` returns is
-- an argument.
--
-- Not modelled: the boot code of src/x86/quark_x86.c and the rest of `kernel_initialize`, with
-- `initialize_page_map` and `kminit`, which fill in structures of libmalloc; the routines of
-- src/x86/isr.c but that of the timer, and the start of paging; `kernel_load_module`, and the return
-- from an interrupt handler; the line that `reserve_page` prints.
pub mod Base
pub mod Status
pub mod Apic
pub mod Avl
pub mod PriorityQueue
pub mod Queue
pub mod Strings
pub mod Paging
pub mod PageMap
pub mod MemoryCalls
pub mod Heap
pub mod Logarithm
pub mod Console
pub mod Printing
pub mod Context
pub mod Descriptors
pub mod Multiboot
pub mod Elf
pub mod Kernel
