-- ===== src/Examples.antt =====
-- Concrete tables and inputs, and the theorems at them.
pub mod Queue
pub mod Worker
pub mod Statistics
pub mod Bursts
pub mod Jobs
pub mod Dashboard
pub mod Lifecycle
pub mod Trash
pub mod Editing
