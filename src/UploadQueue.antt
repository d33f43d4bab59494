-- ===== src/UploadQueue.antt =====
-- The upload queue of src/db/conn.py.
pub mod Table
pub mod Supply
pub mod Consume
pub mod Valid
pub mod Transactions
pub mod Read
pub mod Claims
pub mod Resume
pub mod Held
pub mod Unique
pub mod Retry
pub mod Sent
pub mod Resend
