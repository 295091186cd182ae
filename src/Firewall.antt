-- ===== src/Firewall.antt =====
-- Parts of the firewall plugin, plugins/01-firewall/handler.py.
pub mod Defs
pub mod Pacing
mod Tests
