-- ===== src/Runtime.antt =====
-- The preloaded user-space runtime, runtime/*.c.
pub mod MemPool
pub mod Maps
pub mod Process
