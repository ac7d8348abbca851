-- ===== src/Health.antt =====
-- apps/ops-api/src/modules/app-health/processors.
pub mod Probe
pub mod Incidents
