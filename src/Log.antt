-- ===== src/Log.antt =====
-- pkg/log: loggers that pass each entry on to the next. A stack is the chain from `logStack` along
-- the `next` fields, top first; a mutex around each operation makes it one step.
pub mod Entries
pub mod Stack
pub mod Files
