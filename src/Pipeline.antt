-- ===== src/Pipeline.antt =====
-- apps/ops-api/src/modules/pipeline.
pub mod State
pub mod Service
pub mod Steps
pub mod Run
pub mod Processor
