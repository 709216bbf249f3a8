-- ===== src/Kernel.antt =====
-- The teaching kernel of Operating System/p4-Synchronization-Primitives-IPC.
pub mod Queue
pub mod Sched
pub mod Sync
pub mod Process
pub mod Mbox
