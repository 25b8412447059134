-- ===== src/Database.antt =====
-- src/utils/operandi_utils/database: the documents and the operations on them.
pub mod ModelsStats
pub mod Models
pub mod Updates
pub mod Query
pub mod Consistency
pub mod WorkflowJob
pub mod HpcSlurmJob
pub mod Workspace
pub mod Workflow
pub mod UserAccount
pub mod ProcessingStats
