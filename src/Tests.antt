-- ===== src/Tests.antt =====
-- Runs of the definitions at concrete inputs, and the theorems at inputs where they apply.
mod Link
mod Screen
mod Menus
mod Loggers
mod Records
mod Updates
mod Firmware
mod Interfaces
mod Quality
mod Disks
mod Platform
mod Steps
mod Starts
mod Kernels
mod Exports
mod Names
