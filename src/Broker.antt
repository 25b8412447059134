-- ===== src/Broker.antt =====
-- src/broker/operandi_broker: the workers that consume the queues.
pub mod Worker
pub mod Status
pub mod Download
pub mod Submit
pub mod Handover
pub mod Processes
