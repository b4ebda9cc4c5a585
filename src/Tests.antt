-- ===== src/Tests.antt =====
-- Runs of the model and applications of its theorems at concrete inputs.
pub mod Samples
mod Wire
mod Devices
mod Settings
mod Races
mod Broker
mod Session
mod Table
