-- ===== src/Core.antt =====
-- include/core/gossip_core.hpp and src/core/gossip_core.cpp: the class gossip_core.
pub mod State
pub mod Update
pub mod Tick
pub mod Handle
pub mod Members
pub mod Run
