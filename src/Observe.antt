-- ===== src/Observe.antt =====
-- The observability subsystem: domain counters, the log ring with the last error of each domain,
-- and the log front-end.
pub mod Counter
pub mod Snapshot
pub mod Log
mod Tests
