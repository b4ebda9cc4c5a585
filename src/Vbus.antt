-- ===== src/Vbus.antt =====
-- internal/vbus: frames of the RESOL VBus protocol, their parser and the registry of devices.
pub mod Frame
pub mod Checksum
pub mod Subframe
pub mod Encoder
pub mod Parser
pub mod Double
pub mod Hex
pub mod Registry
