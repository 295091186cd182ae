-- ===== src/Netting.antt =====
-- The netting cycle, src/knarr/commerce/netting.py, and the policy that it asks for.
pub mod Policy
pub mod Defs
pub mod Repeat
mod Tests
