-- ===== src/Lib.antt =====
-- Verification of the PointerOS kernel: the parts of the C code that keep state.
--
-- Addresses are numbers, and memory that holds structs is a function from the address to the
-- struct, so aliasing is equality of addresses and 0 is `NULL`. Words of 64 bits that wrap around
-- do so in the model (`add64`, `sub64`). The machine has one processor; interleaving shows only
-- where the code itself gives up the processor.
--
-- - Base: shared names, tests, list functions, stores, the bits of a byte, and 64-bit words.
-- - Links: doubly linked lists in a store, with insertion and removal, which the rings of threads
--   and the lists of regions share.
-- - Boot: the tags of include/multiboot2.h. A loop over them needs one more round than there are tags.
-- - Kernel.Spinlock: kernel/spinlock.c with `cli` and `sti` of arch/x86_64/inlineasm.c.
-- - Kernel.Thread: the ready list of kernel/scheduler/thread.c. Kernel.Thread.Ring describes it as
--   a ring.
-- - Kernel.Scheduler: `scheduler_handler` of kernel/scheduler/scheduler.c. `retire`,
--   `find_runnable`, `switch_process` and `switch_to` are its parts in their order. The search
--   goes round the ring at most once, so a fuel of one more than the ring's length is enough.
--   Kernel.Scheduler.Fairness is about sequences of timer interrupts.
-- - Kernel.Lifecycle: the other functions of kernel/scheduler/thread.c, and mm/page_fault.c, over
--   the memory managers. The loop over the dead threads has a round for each and one more.
--   Kernel.Lifecycle.Guard lets their functions, the scheduler and page faults follow each other in
--   any order. The structs of threads and the free lists of the heap are separate memories.
-- - Kernel.Syscall: arch/x86_64/syscalls/syscalls.c.
-- - Kernel.Process: kernel/scheduler/process.c. Its two loops run over the 512 entries of a table.
-- - Kernel.Mutex: kernel/mutex.c. The end of `mutex_lock` in `yield` is a result of its own.
-- - Mm.Pmm: the page bitmap of mm/pmm.c and include/mm/pmm.h. The search of `pmm_alloc_pages`
--   moves up at each round and stops above `total_pages`, so `total_pages + 2` rounds are enough.
-- - Mm.MemoryMap: `init_PMM` of mm/pmm.c. Its loops over pages need one more round than pages. The
--   tags of the boot loader are taken not to lie under the bitmap, which `init_PMM` writes.
-- - Mm.Startup: what mm/vmm.c and mm/kmalloc.c do at start-up. The direct mapping has one round for
--   each 2 MB.
-- - Mm.Region, Mm.Vmalloc, Mm.Stack: the address lists of mm/vmalloc.c and mm/stack.c, whose
--   functions have the same steps; one more round than the list is long is enough fuel.
-- - Mm.Mapping: the functions of mm/vmalloc.c and mm/stack.c that also map and unmap pages, on top of
--   Mm.Kmalloc and Mm.Vmm. Their loops have one round for each page of the size,
--   up to the 2^19 pages that their `int` counters reach.
-- - Mm.Vmm: the four levels of page tables of mm/vmm.c, as a memory of words that the bitmap of
--   Mm.Pmm hands out page by page. `descend` is the step that the source writes once for each level.
-- - Mm.Buddy: mm/buddy.c. The loops over orders have as many rounds as orders are left. Mm.Buddy.Free
--   says when the free blocks and their lists are in order, in terms of page numbers.
-- - Mm.Slab: mm/slab.c. A page holds at most 256 objects, so that 300 rounds of `link_objects` are
--   enough.
-- - Mm.Kmalloc: mm/kmalloc.c. The size doubles from 2^12 in a word of 64 bits, so that 60 rounds are
--   enough up to 2^63 bytes; above that the loop of the source does not end.
-- - Libc: libc/string.c.
-- - Fs: fs/fs.c, fs/dfs.c and fs/vfs.c over a memory of bytes. One more round than there are tags is
--   enough for `parse_ramdisk`.
-- - Drivers.Printf: `kprintf` of drivers/lfb/lfb.c. The result is the list of texts that it gives
--   to `klog_write`.
-- - Drivers.Klog: the ring of drivers/lfb/klog.c. A flush moves the tail towards the head by one
--   in each round, from at most 4096 behind it. Drivers.Klog.Events takes the reservation and each
--   store of `klog_write` as steps of their own, between which other writes and flushes come;
--   Drivers.Klog.Queue is a queue of characters with writes that nothing interrupts.
-- - Drivers.Serial: what `serial_print` of arch/x86_64/drivers/video/serial.c sends.
-- - Drivers.Console: characters on the back buffer of drivers/lfb/lfb.c.
-- - Drivers.Screen: `init_LFB` and `lfb_swap` of drivers/lfb/lfb.c, and `init_klog`. There is a round
--   for each 2 MB of the screen.
-- - Arch.Acpi: the firmware tables of arch/x86_64/apic/acpi.c. `parse_madt` needs one more round than
--   the table has entries.
-- - Arch.Idt, Arch.Gdt, Arch.Ioapic: arch/x86_64/idt/idt.c, arch/x86_64/gdt/gdt.c and
--   arch/x86_64/apic/ioapic.c. The stubs in assembly are parameters, and what a handler does beyond
--   a call is a list of effects.
-- - Arch.Timer: what arch/x86_64/drivers/timers and arch/x86_64/apic/lapic.c write to the devices.
--
-- Not modelled: the assembly entry points, the devices behind port and memory-mapped registers,
-- and the other processors. Of the kernel's own code the rest of the start-up (kernel/kernel.c
-- and init_scheduler) is left out, and so is the polling of the timer in pit_wait_ms.
pub mod Arch
pub mod Base
pub mod Boot
pub mod Drivers
pub mod Fs
pub mod Kernel
pub mod Libc
pub mod Links
pub mod Mm
