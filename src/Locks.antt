-- ===== src/Locks.antt =====
-- The spin locks (include/common/spinlock.h, src/common/spinlock.cpp).
pub mod Ticket
pub mod Exclusion
pub mod Unfair
pub mod Barrier
mod Examples
