-- ===== src/Providers.antt =====
-- The cache of skill providers, plugins/01-kademlia/providers.py.
pub mod Defs
pub mod Sweep
pub mod Count
pub mod Evict
pub mod Invariant
pub mod Storing
pub mod Expiry
mod Tests
