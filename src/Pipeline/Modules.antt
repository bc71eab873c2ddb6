-- ===== src/Pipeline/Modules.antt =====
-- models/pipeline/modules/: the hardware blocks of the pipeline.
pub mod Alu
pub mod Gates
pub mod Storage
