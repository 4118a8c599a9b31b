-- ===== src/Checks.antt =====
-- Runs of the model: small data, the theorems applied to it, and tests.
pub mod Samples
mod Nodes
mod Ticks
mod Messages
mod Members
mod Ids
mod Clusters
mod Frames
pub mod SmallJson
pub mod Jsons
mod Interfaces
mod Gateways
mod Sockets
mod Managers
mod Examples
