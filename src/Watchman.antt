-- ===== src/Watchman.antt =====
-- The recovery of the node's process by the watchman, src/knarr/watchman/supervisor.py.
pub mod Defs
pub mod Reach
pub mod Crashes
pub mod Health
mod Tests
