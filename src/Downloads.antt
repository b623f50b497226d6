-- ===== src/Downloads.antt =====
-- The downloads table, its state machine and its queue.
pub mod Status
pub mod Table
pub mod Lifecycle
pub mod Queue
pub mod Transitions
pub mod Unique
pub mod Requeue
