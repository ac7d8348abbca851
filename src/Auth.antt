-- ===== src/Auth.antt =====
-- apps/ops-api/src/modules/auth/auth.service.ts and users/users.service.ts.
pub mod State
pub mod Login
pub mod Sessions
pub mod Totp
pub mod Users
pub mod Passkeys
