-- ===== src/Lib.antt =====
-- A verification library for the monolith kernel, an x86-64 kernel in C (kernel/ in the repository):
-- executable models of its core, component by component, and theorems about them.
--
-- Parts and files
--
-- Mm/Pmm models kernel/mm/pmm.c, the bitmap of physical pages: pmm_mark_range_free is
-- mark_range_free, pmm_allocate is allocate, pmm_free is free. A set bit is a free page. The
-- bitmap's words keep 64 bits, and the two page counters wrap as size_t does.
-- Mm/VmSpace models the list of ranges of an address space in kernel/mm/vmm.c: space_check_range is
-- check_range, space_find_free_range is find_free_range, vm_space_get_range is get_range,
-- space_replace_before is replace_before, and take_range is the unlinking of vm_space_unmap. The
-- page fault asks Pmm only for a page, so the two models meet in an argument of Mm/PageFault.
-- Mm/PageFault models what vm_page_fault of kernel/mm/vmm.c decides, over the ranges of Mm/VmSpace,
-- and Mm/MemoryMap kernel/mm/memory_map.c. Mm/Calls has vm_space_map and vm_space_unmap over those
-- ranges: map_range is what vm_space_map does behind its tests for a panic, new_range the object
-- that is made, and place_range the choice of its place; and
-- the calls of kernel/mm/vm_syscall.c on top. Mm/Slab models kernel/mm/slab.c: slab_alloc walks a
-- cache's slabs with alloc_loop and take_object, slab_free finds the slab of an address with
-- free_loop. A slab's free list is in its objects' first words, which are the list `links`.
-- Libk/ListHead models the intrusive lists of kernel/include/libk/list.h, with __list_add as
-- list_add_between, __list_del as list_join and __list_del_entry as list_unlink. Sched/WaitQueue,
-- kernel/sched/waitqueue.c, works on these links. The other components see a list as its sequence.
-- Sched/Task has `struct task` and the global list, Sched/Process the calls of
-- kernel/sched/task_sys.c on ids, groups and credentials, Sched/Signal kernel/sched/signal.c,
-- Sched/SleepQueue the sleep queue of kernel/sched/task_sleep.c, Sched/RunQueue
-- kernel/sched/scheduler.c, and Sched/Mutex kernel/sys/mutex.c. Sending a signal and a tick of the
-- sleep queue make tasks ready, which is what sched_add_ready of RunQueue takes. In SleepQueue the
-- insertion of sys_clock_nanosleep is enqueue_sleeper, on the links of Libk/ListHead as the C writes
-- them; sleep_queue_tick is modelled on a queue that is a sequence of entries.
-- Net/Arp models kernel/net/arp.c, and Net/Route kernel/net/ipv4/route.c.
-- Net/Checksum models ip_checksum of kernel/net/ipv4/ipv4.c, and Net/Socket kernel/net/socket.c over
-- the operations of a domain, which are arguments. Net/Udp models the socket table of
-- kernel/net/ipv4/udp.c, with ensure_port for the part of udp_sendto that picks a source port.
-- Fs/Files models the table of open files of kernel/fs/vfs.c and the counts of kernel/fs/vnode.c; the
-- results of a file system's operations are arguments. Fs/Dcache models kernel/fs/ventry.c, the
-- table of directory entries, and Fs/Lookup kernel/fs/lookup.c over that cache, seen as a map from a
-- directory and a name to an entry, and over the lookup of a file system, which is an argument;
-- Fs/Generic has the lookup of kernel/fs/generic.c, which ramfs and devfs give for it.
-- Fs/Ramfs models reading and writing in kernel/fs/ramfs/ramfs.c.
-- Sched/Wait models sys_waitpid of kernel/sched/task_sys.c.
-- Dev/Tty models kernel/dev/tty.c with the structures of kernel/include/dev/tty.h; it uses the tasks
-- of Sched/Task. Dev/Device models kernel/sys/device.c, Dev/Disk the partition table of
-- kernel/dev/disk.c, Dev/Rtc the time of kernel/dev/rtc.c from the clock's registers, and Dev/Keyboard
-- kernel/dev/ps2.c from the scan codes on. Sys/Clock models kernel/sys/clock.c and the choice of
-- kernel/sys/timer.c, and Sys/Irq kernel/sys/irq.c.
-- Libk/Memory models kernel/libk/string.c, and Libk/Format the number printing of
-- kernel/libk/vsprintf.c.
-- Prelude has lists with native indices, bit operations, words of 64 bits, count-trailing-zeros,
-- hash tables with chains, and errno results, which the components share. In every component the
-- file with the component's name has the definitions, and the files below it the proofs; Tests has
-- runs at concrete data.
--
-- How state is written
--
-- A C structure is a record of the fields that the modelled calls use. A call that changes state
-- returns the new state. Calls that return -E... are results with an Errno; a NULL is none. A chain
-- of links is the list of its entries, and a C array is a list of fixed length. A section under a
-- spinlock, a mutex or with interrupts off is one step. Addresses and sizes have 64 bits, and
-- add64 and sub64 wrap. Identifiers such as pid_t are held as the pattern of their bits.
--
-- Fuel
--
-- signal_try_handle runs its loop at most twice: SIGCHLD is skipped once, and every other signal
-- ends it; running out of fuel is a result of its own, which is proved not to occur. digit_loop has
-- fuel for 64 digits, enough for a 64-bit number in any base. wake_loop follows links, and needs fuel
-- for one round more than the queue has nodes; find_place does so too. port_loop needs fuel for the ports up to the first
-- unused one, and does not end when there is none. parse_loop needs fuel for one round more than the
-- header makes of the buffer. grow_loop takes the bytes that are missing as fuel, and adds a page for
-- each 4096 of them. All other loops recurse on the data that they walk or on the C code's own
-- counter.
--
-- Not modelled
--
-- The architecture layer, page tables, the drivers behind the devices named above and user space are
-- not modelled: they are hardware access, or programs on top of the calls. Nothing is modelled of the
-- other file systems, the file system calls with a path, the Ethernet layer and the ELF loader. A page
-- from pmm_allocate and memory from kmalloc are taken to be there, except in the models of the two
-- allocators.
pub mod Prelude
pub mod Mm
pub mod Sched
pub mod Net
pub mod Dev
pub mod Libk
pub mod Fs
pub mod Sys
