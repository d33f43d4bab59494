-- ===== src/UploadWorker.antt =====
-- The upload consumer of src/upload/worker.py: one cycle of claim, upload, publication and retry.
pub mod World
pub mod Texts
pub mod Files
pub mod Process
pub mod Keeps
pub mod Reopened
pub mod Races
pub mod Protocol
pub mod Delivery
