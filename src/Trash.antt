-- ===== src/Trash.antt =====
-- src/dashboard/recording_trash.py: which files of a recording go to the recycle bin, and the resumable
-- run that moves them there.
pub mod Package
pub mod Safe
pub mod Run
pub mod Untouched
pub mod Retry
pub mod Retried
pub mod Plan
pub mod Authorized
pub mod Outputs
