-- ===== src/Hpc.antt =====
-- src/utils/operandi_utils/hpc: what the broker asks of the HPC environment.
pub mod ExecutorUtils
pub mod Executor
pub mod Transfer
