-- ===== src/Tests.antt =====
-- Examples: libraries given by lists and plain functions, and the theorems at concrete inputs.
mod Values
mod Environment
mod Supervision
mod Infrastructure
mod Retention
mod Refinements
mod Playbooks
mod Targets
mod Monitoring
mod Accounts
mod Security
mod Auth
mod Users
mod Pipelines
mod Health
mod Journals
mod Logs
mod Servers
mod Crontabs
mod Restores
