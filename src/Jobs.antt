-- ===== src/Jobs.antt =====
-- The job manager and the job queue (include/thread, src/thread).
pub mod Types
pub mod Manager
pub mod Counting
pub mod Balance
pub mod System
pub mod Ownership
pub mod Queue
pub mod Working
pub mod Refilling
pub mod Scheduling
pub mod Draining
pub mod Order
mod Examples
pub mod Limits
pub mod Stopping
