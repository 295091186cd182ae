-- ===== src/Lookup.antt =====
-- The iterative lookup of the Kademlia plugin, plugins/01-kademlia/lookup.py.
pub mod Integers
pub mod Defs
pub mod Order
pub mod Growth
mod Union
mod Rounds
pub mod Nearest
pub mod Distinct
pub mod Asked
mod Tests
