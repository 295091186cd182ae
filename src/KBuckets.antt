-- ===== src/KBuckets.antt =====
-- The routing table of plugins/01-kademlia/kbuckets.py.
mod Defs
mod Store
pub mod Bucket
pub mod Invariant
pub mod Startup
pub mod Calls
pub mod Closest
pub mod Distance
pub mod Eviction
pub mod HostCap
mod Tests
unfoldable pub use Defs.*
unfoldable pub use Store.*
