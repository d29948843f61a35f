-- ===== src/FileQueue.antt =====
-- The file queue of inengine-core/src/queue/driver/file.
pub mod Names
pub mod Disk
pub mod Lookup
pub mod Frame
pub mod Prog
pub mod Logic
pub mod Dir
pub mod Atomic
pub mod Store
pub mod Claim
pub mod Settle
pub mod Bulk
pub mod Peek
pub mod Driver
pub mod Fifo
mod Examples
