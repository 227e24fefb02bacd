-- ===== src/Schedule.antt =====
-- pkg/schedule: scheduled jobs, their cron fields, and the daemon that starts them.
pub mod Cron
pub mod Jobs
pub mod Daemon
mod Tests
