-- ===== src/Context.antt =====
-- The context: its task queue and its resources (src/context.c).
pub mod Elements
pub mod Shutdown
pub mod Tasks
pub mod Workers
pub mod Life
