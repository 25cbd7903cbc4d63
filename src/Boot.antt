-- ===== src/Boot.antt =====
-- pkg/init: what the machine does when it starts, and the tasks before it reboots.
pub mod Root
pub mod Tasks
pub mod Mode
