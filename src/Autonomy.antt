-- ===== src/Autonomy.antt =====
-- src/autonomy: the scheduled jobs.
pub mod Watchdog
