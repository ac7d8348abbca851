-- ===== src/Lib.antt =====
-- Models of the core of hamyar-ops, a control panel for servers: the login throttle and the
-- secrets, authentication and users, deployment pipelines, health probes with incidents, and the
-- services that keep a repeatable job for each row, the editor of .env files, the supervisor of
-- applications, alert rules, backups with their archives and retention, the guard of outbound URLs,
-- the runs of Terraform and Ansible, the journal of requests, error logs, the statistics of
-- requests, and the configuration files of servers.
--
-- The API of apps/ops-api/src is a set of NestJS services over a database (Prisma), queues
-- (BullMQ) and Redis. A service's method is modelled as a function on an explicit state: the
-- tables it reads and writes, its queue, and the events it emits. A method that throws is a
-- `Handler`, a function from a state to a result and a state, composed by do blocks in the order of
-- the code, so a method that throws after a write keeps the write.
--
-- Files, and the code that each models:
--   Prisma, Bull: the tables and queues, as records of operations with the documented effect of
--     each; they are parameters of every model, since the libraries are not in the repository.
--   Http: the exceptions, results and handlers; Http/Invariants is about what handlers keep.
--   Security/LoginThrottle, Security/Secrets, Security/Ssrf, Security/PathGuard: the files of
--     common/security; Security/RolesGuard: common/guards/roles.guard.ts.
--   Auth/State, Auth/Login, Auth/Sessions, Auth/Totp, Auth/Passkeys: modules/auth/auth.service.ts
--     (validateUser, login, refresh, logout, setupTotp, verifyTotp, verifyPasskeyRegister,
--     verifyPasskeyLogin). bcrypt, TOTP, SHA-256, JWT and WebAuthn are the record `Libraries` and
--     arguments.
--   Auth/Users: modules/users/users.service.ts; disableTotp stands in Auth/Totp.
--   Pipeline/State, Pipeline/Service, Pipeline/Steps, Pipeline/Run, Pipeline/Processor:
--     modules/pipeline/pipeline.service.ts and pipeline.processor.ts. Pipeline/Service/Runs has
--     triggerRun, handleWebhook and rollbackRun. `execute_step` is executeStep, `run_steps` the loop
--     of executeRun; the order in which the query returns the steps is an argument, since all steps
--     of a run are created at one time.
--   Health/Probe, Health/Incidents: modules/app-health/processors/health-probe.processor.ts;
--     Health/Probe/Refinement has the log of all probes as the specification of what is stored.
--   Schedules/Registration, Schedules/Apps, Schedules/Backups, Schedules/CronJobs: modules/
--     scheduler/scheduler.service.ts, modules/backups/backup-strategy.service.ts and modules/
--     cron-jobs/cron-jobs.service.ts, over one model of adding and removing a repeatable job.
--     Schedules/CronJobs/Crontab fills the interface `Remote` of the crontabs of managed servers
--     with the commands over SSH, Schedules/CronJobs/Runs has runNow, and Schedules/CronJobs/
--     Histories the requests and runs in any order, with what becomes of the key files.
--   Schedules/Apps/Runs: modules/scheduler/scheduler.processor.ts, with PM2 as a parameter.
--   Backups, Backups/Retention: the records of modules/backups/backups.service.ts (deleteRecord,
--     enforceRetention, cleanupExpiredLocal); Backups/Archives has backupApp, backupDatabase,
--     backupContainer and backupCompose over the machine of Backups/Archives/Machine,
--     Backups/Execution executeBackup and runStrategyBackup; Backups/Execution/Keeping,
--     Running, Settled and Targets are about what becomes of the records.
--     Backups/Execution/Placing says what a record holds of its archive; Backups/Restores has restore
--     and getArchiveBuffer, and Backups/Restores/Offloaded is about an archive in a bucket.
--   ServerConfig, ServerConfig/Names, ServerConfig/Resolver: modules/server-config/
--     server-config.service.ts (the host name, /etc/hosts and /etc/resolv.conf).
--   Alerts, Alerts/Rules: alert-evaluator.processor.ts and the rules of monitoring.service.ts, in
--     modules/monitoring.
--   EnvEditor: modules/env-editor/env-editor.service.ts; EnvEditor/Written is about the text of a
--     file, EnvEditor/Paths about which file it is.
--   Supervisor/Commands, Supervisor/Rules: modules/supervisor/supervisor.service.ts (runCommand with
--     its key file, and checkRule, checkAll and the rules); Supervisor/Rules/All is about checkAll.
--   Infra/Terraform, Infra/Terraform/Runs, Infra/Terraform/Summary: modules/terraform (workspaces
--     and runs, executeRun, parsePlanSummary); Infra/Processes is what it uses of the machine.
--   Infra/Ansible, Infra/Ansible/Jobs, Infra/Ansible/Drift, Infra/Ansible/Seeding: modules/ansible
--     (playbooks, executeJob, the lines of the drift check, seedBuiltInPlaybooks).
--   Interceptors: common/interceptors over the values of Json; Interceptors/Sanitizing and
--     Interceptors/Events have sanitizeBody and logEvent of api-events.interceptor.ts, and
--     Interceptors itself audit.interceptor.ts and both together. Interceptors/Redaction and
--     Interceptors/Recorded are about what the journal shows.
--   ErrorLogs, ErrorLogs/Spacing, ErrorLogs/Overview: modules/error-logs/error-logs.service.ts
--     (scanNow and what it collects, getOverview with bucketConfig and buildBounds).
--     ErrorLogs/Titles has ERROR_RE, parseWhen, extractRoute and normalizeTitle, behind the interface
--     that the scan takes.
--   Analytics, Analytics/Sums, Analytics/Composition: modules/analytics/log-aggregator.service.ts;
--     Analytics/AccessLog: log-parser.service.ts beside it.
--   Prisma/Updates: rows that are found again behind updates by their id.
--   Tests: concrete tables, queues and libraries, and each listed theorem at a concrete input.
--
-- Numbers are natural; a time is in milliseconds, and a difference of times that the code tests for
-- being positive is the difference that stops at 0. The times that one call reads at several
-- places are one argument. Loops are over lists; only
-- `decimal`, the printing of a number n, has fuel, n + 1, which is more than it has digits. Texts whose
-- characters matter are lists of UTF-16 code units (Base/Chars). A handler is one step:
-- interleavings of two requests inside a handler are not modelled.
--
-- Not modelled: the controllers with cookies and validation, reading handlers, texts of logged
-- messages and incidents, Redis keys that expire, full backups, the parts that only
-- run commands or pass the answers of other services on (Docker, registries, nginx, SSH, firewalls,
-- files, PM2, certificates), and the user interface.
pub mod Base
pub mod Prisma
pub mod Http
pub mod Security
pub mod Auth
pub mod Bull
pub mod Pipeline
pub mod Health
pub mod Schedules
pub mod Supervisor
pub mod Infra
pub mod Alerts
pub mod Backups
pub mod EnvEditor
pub mod Tests
pub mod Json
pub mod Interceptors
pub mod ErrorLogs
pub mod Analytics
pub mod ServerConfig
