-- ===== src/Lib.antt =====
-- A verification library for the MMURTL/RS kernel (Rust, paths from the repository's root).
--
-- Parts of the program and where they are modelled.
--
-- Rqb models src/scheduler/rqb.rs, the messages that tasks exchange: the status codes and the
-- 64-byte payload.
--
-- Scheduler models src/scheduler/mod.rs and src/scheduler/task.rs, for the amd64 build. Each
-- method of `Scheduler` is a function of the same name from the state to the new state and the
-- result; a Rust panic (an index out of range, `expect`, `assert!`) is `none`, so a theorem that
-- gives `some` says that the code does not panic. The statics JIFFIES, NEXT_TASK_ID and REAPING
-- are fields of `Kernel` beside the `Scheduler`. What a context switch asks of the hardware
-- (interrupts to other CPUs, the address space, the speculation settings) is a list of effects in
-- the order of the calls. Scheduler/Tasks has the constructors and the run queue, Scheduler/Tick
-- the context switch and `pick_next`, Scheduler/Ipc the blocking request, receive, reply and exit,
-- Scheduler/Reaper the collection of exited tasks, Scheduler/Api the functions that the rest of
-- the kernel calls. Scheduler/Invariant has the invariant of the run queue and the per-CPU table,
-- and Scheduler/Reach the histories: every operation above as a step of one relation, so that all
-- interleavings of CPUs are covered, because the code runs each operation under one lock. In a
-- history only tasks that are bound to no CPU exit, which holds of the code since only idle tasks
-- are bound and they never return. The size of the saved context and whether CPUs can interrupt
-- one another are parameters. Not modelled: the lock protocol across the stack switch, log lines,
-- and the contents of the saved contexts.
--
-- Console models src/keyboard.rs: the ring of input bytes, its recovery after a loss, and the
-- translation of scancodes. Console/Spec is the abstract queue, Console/Refine the refinement.
--
-- Frames models src/memory/frame_allocator.rs. The two bitmaps are functions from the frame's
-- number to its bit, and `clean` says which frames of the memory hold only zeros, which is all
-- that the allocator looks at. Frames/Single is about one frame, Frames/Contiguous, Frames/Runs
-- and Frames/Claim about runs of them. Not modelled: where `init` places the bitmaps.
--
-- Fat models src/fs/fat.rs up to the directory transfers: Fat has the table, the chains and the
-- choice of free clusters, Fat/Disk the operations on the disk, whose one-sector reads and writes
-- are parameters, Fat/Files the contents of files. An `Err` is `none`, and what was changed before
-- it stays changed. Not modelled: mounting, directory records, operations on paths.
--
-- Topology models src/topology/policy.rs, the admission of CPUs when sibling threads are switched
-- off, less the reading of the command line.
--
-- Shell models src/shell/parse.rs, command lines and paths, over lists of code points.
--
-- Services models the registry of named services in src/ipc/mod.rs.
--
-- Asids models src/arch/arm64/asid_pool.rs, the tags of address spaces. The bitmap of used tags is
-- read one tag at a time, a Rust panic is `none`, and each call is one step, since the caller holds a
-- lock. Asids/Valid says when a pool is valid, Asids/Alloc, Asids/Reload and Asids/Obtain follow the
-- parts of `activate`, and Asids/Reach is about every history of calls.
--
-- Elf models src/memory/elf.rs, the check of a program image before it is mapped. An `Err` is `none`,
-- and its text is not kept. Elf/Loads is about the loop over the program headers, Elf/Safe about the
-- whole check.
--
-- Exfat models src/fs/exfat.rs: Exfat has the layout, the entry sets and their checksum, Exfat/Disk
-- the table, the chains and the bitmap, Exfat/Dirs directories, paths and mounting, Exfat/Files the
-- operations that write. Exfat/Io is the shape of all of these: a device with a state of any kind,
-- whose reads and writes may fail at any time and yield anything. `false`, `None` and `Err` are all
-- `none`, and so is a panic on an index out of range. VOLUME is an argument, `none` before a volume is
-- mounted. Sums of the fields of a volume are taken to fit into their types, but for the wrap in the
-- number of clusters of a contiguous file, which is written out. Not modelled: what is only printed
-- (listings, the label) and the demonstration at boot.
--
-- Ownership models src/virtio/ownership.rs, the free descriptors of a queue and the chains that are
-- lent to the device. A Rust panic is `none`. Ownership/Lists is about lists linked through an array,
-- Ownership/Valid says that each descriptor is in one of them, Ownership/Reserve, Ownership/Complete
-- and Ownership/Fresh keep that, Ownership/Calls has every branch of the calls, and Ownership/Reach
-- every history.
--
-- Bounds and fuel. Numbers are natural numbers; where the source's width matters the wrap is
-- written out. Loops are structural recursions: over the run queue, over the table of CPUs, or, in
-- `pick_next`, over the rounds left, which the source bounds by the length of the queue. The walk
-- along a cluster chain has one round more than the limit on its length, and every round adds a
-- cluster. The root directory of
-- exFAT grows on fuel of the size of the set to be placed, and each round adds a cluster; the walk
-- through its table has `cluster_count + 1` rounds, as in the source.
pub mod Asids
pub mod Base
pub mod Console
pub mod Elf
pub mod Exfat
pub mod Fat
pub mod Frames
pub mod Ownership
pub mod Rqb
pub mod Scheduler
pub mod Services
pub mod Shell
pub mod Topology
