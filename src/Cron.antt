-- ===== src/Cron.antt =====
-- go/cron: the runs of scheduled jobs.
pub mod Runs
