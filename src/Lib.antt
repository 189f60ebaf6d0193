-- ===== src/Lib.antt =====
-- VinixOS, an operating system for the BeagleBone Black: a model of the core of its kernel and what is
-- proved of it. Paths are from the repository's root; VinixOS/kernel/src/kernel is K here.
--
-- The kernel's parts and their models. Each part is a record for its static variables and one function
-- for each operation, named like the C function, from the state before to the result and the state after.
--
--   Mm.PageAlloc     K/mm/page_alloc.c, the bitmap of physical pages
--   Mm.Slab          K/mm/slab.c, caches of objects of one size in pages of Mm.PageAlloc, with the links of
--                    the free objects in memory, kmalloc and kfree
--   Mm.Vmm           K/mm/vmm.c, address spaces and their sorted lists of areas, in objects of Mm.Slab
--   Block.Device     the dispatch of K/block/block.c to a driver, which is a parameter with its laws
--   Block.Cache      K/block/buffer_cache.c, the write-back cache of sectors between the file system and
--                    a device
--   Proc.Task        the task structure of VinixOS/kernel/include/task.h, and memory as a function from
--                    pointers to tasks
--   Proc.Sched       K/scheduler/scheduler.c, the slots and the round-robin switch
--   Proc.Sleep       K/sync/sleep.c, the sleep list, which the timer tick walks
--   Proc.Wait        K/sync/wait_queue.c and K/proc/wait.c, exit, wait and kill; they write the states of
--                    tasks that the scheduler reads, and give slots back to it
--   Fs.Vfs           K/fs/vfs.c, mounts and file descriptors, over file systems that are a parameter
--   Fs.Fat           K/fs/fat32.c, one such file system, over an interface of sectors, which
--                    Fs.Fat.Cached fills by Block.Cache
--   Net.Checksum     VinixOS/kernel/src/drivers/netcore.c, the checksum of IP and ICMP
--   Net.Arp          its ARP cache
--   Net.Core         its sending and receiving of Ethernet, ARP, IPv4, ICMP and UDP, over the two
--                    descriptors of VinixOS/kernel/src/drivers/cpsw.c; a poll for frames calls the
--                    receiving functions, which may poll again
--   Svc              K/core/svc_handler.c, the dispatch of system calls and the checks of user pointers, over
--                    an interface for what the rest of the kernel answers
--   Base             numbers, lists, tests and error codes that the parts share
--
-- The code runs on one CPU. What it does with interrupts off is one step; the steps between which the
-- timer may come are functions of their own (msleep, the round of wait_event in do_wait). Numbers of type
-- uint32_t are natural numbers, reduced modulo 2^32 where the code may wrap round. Reads of an array out
-- of bounds that the code can make are written out (Mm.PageAlloc), else a default stands for them.
--
-- Loops that need not end have a number of rounds, and the result says when they run out. The loop of
-- sleep_tick takes a task off its list or steps over one in each round, so one round more than there are
-- tasks is enough; the loop that wakes the waiting parents takes one off in each round. The loops of
-- fat32.c over a chain of clusters end only if the chain does, so there the rounds are a parameter; a read
-- is given one round for each byte, as a cluster that is read to its end gives one or more. The calls
-- inside each other of the network's receiving function have a depth, and no result where it is exceeded.
-- The search of vma_create and the loop of mm_free have rounds; one more than there are areas is enough
-- for both.
--
-- Not modelled: the hardware and its drivers, page tables, assembly code, what is printed, fork and exec,
-- the partition table, interrupts, the device model, devfs and procfs, the C libraries, userspace, the boot
-- loader and the compiler. In fat32.c: fat32_write, fat32_listdir and the scan at the mount.
pub mod Base
pub mod Mm
pub mod Block
pub mod Proc
pub mod Fs
pub mod Net
pub mod Svc
