-- ===== src/Tests.antt =====
-- Runs of the theorems at concrete inputs.
mod Fixtures
mod Broker
mod Submit
mod Hpc
mod Database
mod Installation
mod Accounts
mod Server
mod Processes
mod System
mod Oton
