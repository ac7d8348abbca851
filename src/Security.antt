-- ===== src/Security.antt =====
-- apps/ops-api/src/common/security
pub mod LoginThrottle
pub mod Secrets
pub mod Ssrf
pub mod PathGuard
pub mod RolesGuard
