-- ===== src/Uefi.antt =====
-- pkg/hw/uefi: device paths out of UEFI variables, and the boot entries of the appliance.
pub mod Outcome
pub mod Nodes
pub mod DevicePath
pub mod Boot
pub mod Vars
