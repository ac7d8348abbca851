-- ===== src/Schedules.antt =====
-- The services that keep one repeatable job for each of their rows: modules/scheduler,
-- modules/backups/backup-strategy.service.ts and modules/cron-jobs.
pub mod Registration
pub mod Apps
pub mod Backups
pub mod CronJobs
