-- ===== src/Ledger.antt =====
-- The bilateral ledger, a table of src/knarr/dht/storage.py.
pub mod Defs
pub mod Calls
pub mod Accounts
pub mod Oldest
pub mod Capacity
mod Tests
