-- ===== src/Runtime.antt =====
-- src/runtime, src/config.ts and the life cycle of src/main.ts: how the program is started.
pub mod Launch
pub mod Control
pub mod Config
pub mod Lifecycle
