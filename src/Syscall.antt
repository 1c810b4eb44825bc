-- ===== src/Syscall.antt =====
-- crates/wasmux/src/kernel/syscall.rs: the handlers of the system calls, by subject.
mod Tests
pub mod Descriptors
pub mod Streams
pub mod Processes
pub mod Signals
pub mod Paths
pub mod Files
pub mod Memory
pub mod Poll
