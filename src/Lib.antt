-- ===== src/Lib.antt =====
-- A verification library for zenus, an x86_64 operating system kernel in Rust. It models parts of
-- the kernel that decide who owns what: the memory of the machine, the address space of a process,
-- the sectors held in memory and the transactions on them, the routes, the filter and the addresses
-- of the network, the mounts and the rights to files, which task runs next, the limits of groups of
-- tasks, the task numbers of a namespace, the order of locks, the first stack of a program.
--
-- The parts, and the files that model them:
-- * Mem/Frames.antt models crates/zenus-mem/src/frame_allocator.rs: `FrameAllocator` with its two
--   allocation passes, the stack of recycled frames and the counts. Mem/Frames/Plan.antt models how
--   it is filled: `reserve_region`, `reset`, `plan_regions`. Frames/Owned.antt has the invariant
--   and what it is to hold a frame; Scan, Serve and Alloc are about `alloc_frame`, Recycle about
--   `free_frame`, History about sequences of both, Count about `free_frames_count`. Plan/Carve.antt
--   is the reference for `reserve_region`: a list of intervals with an interval cut out. Shift,
--   Loop and Tidy relate the array loops to it, Pieces says which bytes it covers.
-- * Mem/Vma.antt models crates/zenus-mem/src/vma.rs: the mappings of a process in a table of 64
--   slots. Table.antt has the invariant and `insert`, Compact and Unmap the in-place removal, Free
--   the gap search behind `mmap`, Lookup the search by address.
-- * Fs/BlockCache.antt models crates/zenus-fs/src/block_cache.rs, the write-back cache between the
--   file systems and the disks, and Fs/BlockCache/Requests.antt the functions of
--   crates/zenus-fs/src/io_scheduler.rs that count requests. Probe, Evict and Fill are about a miss,
--   View and Write about what a client sees in terms of the search, Window and Seen about the same
--   without it, Flush about writing back. The disks are a parameter, a
--   record of `read` and `write` with the laws of a store of sectors, since the drivers behind
--   crates/zenus-fs/src/devfs.rs talk to hardware.
-- * Fs/Journal.antt models crates/zenus-fs/src/journal.rs, the redo journal, over an interface of the
--   block layer, `Blocks`. Cached.antt puts the block cache into that interface. Codec.antt is about
--   the header sector, Header about reading it back, Replay has the replay.
-- * Fs/Cgroup.antt models the table of crates/zenus-fs/src/cgroup.rs, the control groups: Tasks.antt
--   has what is done for a task, Count.antt the invariant, Charge is about the memory limit, Attach
--   and Move about moving a task, Calls and Runs about sequences of calls, Lock about the functions
--   that take the lock of the table.
-- * Sched.antt models the task table of crates/zenus-sched/src/scheduler.rs: Scan.antt is about its loops,
--   Slots about free slots, Ready and Turns about the choice of the next task, Zombies, Children and
--   Reap about the records of dead children, Life about the exit of a task, the wait for it and its
--   removal. Sched/Caps.antt models crates/zenus-sched/src/caps.rs, the capabilities of a task.
--   Sched/Signals.antt models which signal crates/zenus-sched/src/signal.rs delivers.
-- * Fs/Mount.antt models the mount tables of crates/zenus-fs/src/vfs.rs: Covers.antt is about which paths
--   a mount covers, Find about the lookup, Point and Deepest about mount points, Undo about
--   unmounting and about other namespaces.
--   Fs/Access.antt models the permission checks of the same file.
-- * Net/Route.antt models crates/zenus-net/src/route.rs, the routing table: Scan and Longest
--   are about `lookup`, Add.antt about `add`.
-- * Net/Firewall.antt models crates/zenus-net/src/firewall.rs, the packet filter: Applies and Check
--   are about the rules, Track.antt about the connections.
-- * Net/Arp.antt models crates/zenus-net/src/arp.rs, the cache of hardware addresses and the packets
--   that fill it: Wire.antt lays out addresses and packets, Cache is about overwriting an entry,
--   Insert about a packet from anyone, Packet about a request and its reply, Static about entries
--   that are known ahead of time.
-- * Net/Dhcp.antt models crates/zenus-net/src/dhcp_server.rs, the leases of the DHCP server: Table.antt
--   is about searches of the table, Unique about granting a lease, Serve about the messages, Options
--   about the options of a message.
-- * Sync/Lockdep.antt models crates/zenus-sync/src/lockdep.rs, the checker of the order of locks:
--   Order.antt is about the answer of `lockdep_acquire`, Bounds and Run about sequences of calls by
--   several CPUs, Inversion about two locks taken in both orders, Status about the snapshot.
-- * Syscall/UserStack.antt models crates/zenus-syscall/src/userstack.rs, the stack that a program
--   starts with: Layout.antt is about where its pieces go, Strings and Write about what a program
--   reads there, Memory about stores to user memory.
-- * Ns/Pid.antt models crates/zenus-ns/src/pid.rs, the task numbers of a namespace.
--
-- Conventions. An array is a list of its length, and entries at a count and above are stale. The
-- u64 values are natural numbers; a sum that can wrap is taken modulo 2 ^ 64 (`add64`), saturating
-- and checked sums are `saturating_add64` and `checked_add64`, and `x & !0xFFF` is `page_down x`.
-- A method on `&mut self` takes the state and returns it with its result. The loops of Rust are
-- structural recursion, over a list or over the number of rounds that the source's bound leaves.
--
-- Fuel: `find_free` and `remove_overlapping` have the source's own bound, 65 rounds. The loop of
-- `reserve_region` has none in the source: each round lowers the entries ahead twice plus the free
-- slots, at most 128, so `reserve_fuel` is 129. The fuel of `find_option` is an argument, which the
-- number of bytes left bounds, and so is that of
-- `lock`: on a lock that stays held none is enough. `reap_from` has a round for each record.
--
-- Where they meet: the journal writes through the block cache (Fs/Journal/Cached.antt and the runs in
-- Fs/Journal/Tests.antt), and so do the requests that are counted. The end of a task, a signal and
-- the choice of the next task work on one table. The other parts share no state.
--
-- Not modelled: the locks around the other global tables (each operation is one step), assembly, page
-- table and device drivers' code, the boot protocol, and the formatting of /proc and the log.
pub mod Base
pub mod Fs
pub mod Mem
pub mod Net
pub mod Ns
pub mod Sched
pub mod Sync
pub mod Syscall
