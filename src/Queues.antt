-- ===== src/Queues.antt =====
-- The bounded queues (include/queue/Queue.h) and the index arithmetic of include/common/Common.h.
pub mod Index
pub mod Slots
pub mod Ring
pub mod Rounds
pub mod Shuffle
pub mod Fifo
pub mod Refinement
pub mod Sizes
mod Examples
