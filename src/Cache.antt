-- ===== src/Cache.antt =====
-- The cache in front of the storage, plugins/00-storage-strategy/cache.py.
pub mod Defs
pub mod Coherence
pub mod Keys
pub mod Staleness
mod Tests
