-- ===== src/Examples.antt =====
-- Concrete instances of what the program takes from other crates, small states, and runs on them.
pub mod Lru
pub mod Samples
pub mod ChainStates
mod Buffers
pub mod Trees
mod Engines
mod Networks
mod Caches
mod Downloads
mod Tries
mod Verifiers
mod Launches
mod Peers
