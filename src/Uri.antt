-- ===== src/Uri.antt =====
-- Addresses of resources, src/knarr/core/uri.py.
pub mod Defs
pub mod Spans
pub mod RoundTrip
pub mod Parsed
mod Tests
