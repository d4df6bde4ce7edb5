-- ===== src/Monitoring.antt =====
-- internal/monitoring: the scheduler that hands due checks to workers, and the runner that makes a
-- check.
pub mod Scheduler
pub mod Runner
pub mod Tests
