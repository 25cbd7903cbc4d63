-- ===== src/Appliance.antt =====
-- pkg/appliance: which appliance this is, by its DMI data.
pub mod Processor
pub mod Identify
pub mod Prefixes
