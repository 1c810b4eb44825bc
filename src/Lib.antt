-- ===== src/Lib.antt =====
-- wasmux, a kernel for WebAssembly guests: the part of crates/wasmux/src that keeps the state of a
-- session and serves system calls, modelled and proved.
--
-- A session has one `Shared` state (kernel/mod.rs): a slab of open file descriptions, a slab of
-- pipes, the table of processes, the standard streams and the memory charge. Each process has a
-- `Task` (kernel/task.rs) with its own table of descriptors, which point at descriptions by their
-- keys. A system call works on a `Ctx`: the task that runs, the parents that it suspends by vfork,
-- the shared state and the guest's memory. A path is resolved over the mounts and the overlay of
-- programs (kernel/path.rs).
--
-- Files, and the code that they model:
--   Prelude        lists, Boolean tests, results and signed words, shared by all files
--   Slab           slab.rs; Slab/Valid has the invariant, Slab/Refine the view as a map
--   Errno          errno.rs
--   Desc, Fd       kernel/fd.rs: descriptions and pipes; the table of descriptors; Fd/Alloc the
--                  lowest free descriptor
--   Shared         kernel/mod.rs: `release_desc` and its kin; Shared/Refs counts the references to a
--                  description, Shared/Counts and Shared/Tables relate the operations of
--                  `FdTable` to the counts
--   Mem            kernel/mem.rs; Mem/Access has bounds, frames and round trips
--   Task           kernel/task.rs; Task/Triage which signals are delivered and discarded
--   Process        kernel/mod.rs: `fork_record` and `set_exit`; Process/Table has the invariant,
--                  Process/Exit what an exit leaves behind
--   Ctx            kernel/mod.rs and kernel/syscall.rs: the context and the faults of a call
--   Syscall        kernel/syscall.rs: Descriptors (close, dup, dup3, fcntl, pipe2), Streams (read,
--                  write), Processes (clone, exit, the end of execve, wait4, kill; `finish_process`
--                  of kernel/mod.rs; Processes/Fork and Processes/Exec whose descriptors the tasks
--                  have), Signals (the signal calls, the end of `dispatch`;
--                  Signals/Delivery `next_signal`), Paths (the calls on paths; Paths/Handlers the
--                  arms of `handle`), Files (lseek, ftruncate, getdents64),
--                  Memory (sys_brk, sys_mmap), Poll (ppoll, and pselect6 in Poll/Select)
--   Engine         engine/mod.rs: what a backend answers
--   Kernel         kernel/mod.rs: the scheduler; Kernel/Start and Kernel/Finish how processes start
--                  and end, Kernel/Steps a step of a guest, Kernel/HostStep of a host command,
--                  Kernel/Run `run` and `why_idle`, Kernel/Asyncify the imports of a guest. Under
--                  Kernel/Run, Loop and Local have what the steps keep, Turns the turns of a pass,
--                  Ends how a pass ends, Retry how a call that blocks is tried again, Charge and
--                  Settled the memory that is accounted for, Answers what is answered
--   Path           kernel/path.rs: `normalize`, `join`; Path/Normal their laws
--   Vfs            vfs/mod.rs: the traits, as records of functions
--   Mounts         kernel/path.rs: `Mounts`; Mounts/Find the longest match
--   Decimal        the decimal text of an `i32`
--   Nodes          kernel/path.rs: `Node`, `Overlay`, devices, /proc and its links
--   Resolve        kernel/path.rs: `Resolver`; Resolve/Safety what a mount is asked for
--   Tree           vfs/mem.rs: `Node` and its paths; Tree/View the tree as a map from paths,
--                  Tree/Edit and Tree/Entry what a change of one directory does to the map
--   MemVfs         vfs/mem.rs: `MemVfs`, MemVfs/Change its methods that change the tree,
--                  MemVfs/File the open files
--   Tty            kernel/tty.rs: `Termios` and its layout
--
-- A method that takes `&mut self` returns the state that it leaves, on its error branches too.
-- Numbers are natural numbers with the wrap-around or the saturation of the source written out; a
-- `usize` has 64 bits. Text is the list of its bytes.
--
-- Loops are structural recursion. `FdTable::alloc` runs on the size of its range, `cstr_array` on
-- the number of strings that it admits, `resolve` on the pair of the hops left and the components
-- left, which each round makes smaller, and `next_signal` on a count of rounds of which 65 are
-- enough; a pass of the scheduler runs on one round more than there are processes, `kill_all` on a
-- round for each process, and `flush` on a round for each byte; none of them can run out early. The
-- loop of `run` goes on for as long as its clock has readings, and answers `none` when they end. The
-- loop in which a host command drains its input has no bound in the source: it runs on the rounds
-- that it is given, and says when they are used up.
--
-- Parameters: the handles of files and what they answer, the mounted filesystems, their state and
-- what their methods do to it, the decoding of UTF-8, the state of the random generator, the clock,
-- the programs with the engine that runs them, and the system calls as the scheduler sees them.
--
-- Not modelled: openat and statx, the content of /proc, ioctl, identities and time, and the layout
-- of the startup block; the filesystem of vfs/host.rs and the backends of the engines, which are calls
-- of the host's libraries; the session interface of lib.rs.
pub mod Prelude
pub mod Slab
pub mod Errno
pub mod Desc
pub mod Fd
pub mod Shared
pub mod Mem
pub mod Task
pub mod Process
pub mod Ctx
pub mod Engine
pub mod Kernel
pub mod Syscall
pub mod Path
pub mod Vfs
pub mod Mounts
pub mod Nodes
pub mod Resolve
pub mod Decimal
pub mod Tree
pub mod MemVfs
pub mod Tty
