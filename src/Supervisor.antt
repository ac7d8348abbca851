-- ===== src/Supervisor.antt =====
-- The watching of applications and their restart, of apps/ops-api/src/modules/supervisor.
pub mod Commands
pub mod Rules
