-- ===== src/Qa.antt =====
-- pkg/mfg/qa: whether the hardware that is found is the hardware that the platform must have.
pub mod Tally
pub mod Devices
pub mod Disks
pub mod Dmi
pub mod Specs
