-- ===== src/Raid.antt =====
-- pkg/erase/raid: access to a disk in aligned blocks, and the RAID metadata that outlive an erase.
pub mod Align
pub mod Device
pub mod Metadata
pub mod Arrays
