-- ===== src/Proof.antt =====
-- Signed documents, src/knarr/core/proof.py.
pub mod Base58
pub mod Digits
pub mod Codes
pub mod RoundTrip
pub mod Document
pub mod Signing
mod Tests
