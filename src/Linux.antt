-- ===== src/Linux.antt =====
-- crates/ruxeon-linux/src/lib.rs: the Linux process and the dispatcher of its system calls. `i64` and `i32` values
-- are their bit patterns; sums of addresses wrap, as in a release build; a text or a host path is its bytes.
pub mod Os
pub mod Terminal
pub mod State
pub mod Steps
pub mod Keeping
pub mod Arguments
pub mod Heap
pub mod Transfer
pub mod Stat
pub mod Directory
pub mod Paths
pub mod Ioctl
pub mod Fork
pub mod Handlers
pub mod Dispatch
pub mod Samples
mod Tests
