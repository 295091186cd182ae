-- ===== src/EventBus.antt =====
-- The event bus of src/knarr/dht/eventbus.py: a ring buffer of events with subscribers that read
-- at their own pace, and a store of deferred events.
mod Glob
mod Defs
mod Subscriber
pub mod Ring
pub mod Polling
pub mod Deferred
pub mod Commands
pub mod History
mod Tests
unfoldable pub use Defs.*
unfoldable pub use Subscriber.*
