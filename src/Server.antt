-- ===== src/Server.antt =====
-- src/server/operandi_server: the accounts, and the submission of a job.
pub mod State
pub mod Users
pub mod Resources
pub mod Metadata
pub mod Submission
pub mod Consistency
