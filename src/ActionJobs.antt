-- ===== src/ActionJobs.antt =====
-- src/server/action_jobs.py: the directory of job files through which the dashboard hands work to the
-- Windows worker. Every function runs under the lock of the directory, so it is one step.
pub mod Files
pub mod Submit
pub mod Work
pub mod Resubmit
pub mod Kept
pub mod Claims
pub mod Choice
pub mod Loop
pub mod Counts
pub mod Drained
