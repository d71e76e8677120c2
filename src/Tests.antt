-- ===== src/Tests.antt =====
-- Concrete inputs, and the theorems at them.
pub mod Data
mod Cases
mod Streams
pub mod Codecs
pub mod Wires
mod Starts
mod Upgrades
mod Spawns
mod Bridges
mod Processes
mod Shells
mod Clients
