-- ===== src/Credit.antt =====
-- Payments on a chain and the credit for them, src/knarr/commerce/bcw_credit.py.
pub mod Defs
pub mod Cases
pub mod Run
pub mod Kept
pub mod Once
mod Tests
