-- ===== src/Stages.antt =====
-- src/burn/pipeline_stages.py.
pub mod Queueing
pub mod Staged
