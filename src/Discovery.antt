-- ===== src/Discovery.antt =====
-- PYTHON/IrisUtils/FindArrays.py: the chains of Irises on the network, from the triggers they pass on.
pub mod Chains
pub mod Heads
pub mod Hubs
mod Tests
