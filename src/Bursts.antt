-- ===== src/Bursts.antt =====
-- src/autoslice/burst_detector.py: from the times of the comments to the slices around their bursts.
-- Times are natural numbers of milliseconds. A density is an exact fraction, where the source has a
-- float; the baseline is kept as twice its value.
pub mod Density
pub mod Segments
pub mod Events
pub mod Detect
