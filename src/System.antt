-- ===== src/System.antt =====
-- The platform: the tables, the queue of tasks and what changes them.
pub mod Truthful
pub mod Rows
pub mod Steps
pub mod Owned
pub mod Sound
pub mod Rotated
pub mod Operations
pub mod Invariant
