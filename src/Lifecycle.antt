-- ===== src/Lifecycle.antt =====
-- src/dashboard/source_lifecycle.py: the state of a source recording beside its package, its review,
-- its retention, the experiences that a review leaves and the recommendations made of them.
pub mod State
pub mod Review
pub mod Eligible
pub mod Experience
pub mod Repeats
pub mod Reviewed
pub mod Streamer
pub mod Technical
