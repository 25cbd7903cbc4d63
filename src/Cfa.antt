-- ===== src/Cfa.antt =====
-- pkg/hw/cfa: the Crystalfontz LCD (packets, text layout, menus, questions, serial link).
pub mod Errors
pub mod Cmd
pub mod Command
pub mod Packet
pub mod Serial
pub mod Key
pub mod Buttons
pub mod Incoming
pub mod Retry
pub mod Text
pub mod View
pub mod Legends
pub mod Question
pub mod Confirm
pub mod Display
pub mod Scroll
