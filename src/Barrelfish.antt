-- ===== src/Barrelfish.antt =====
-- src/platform/barrelfish.c: the backend on Barrelfish.
pub mod Topology
pub mod Regions
pub mod Memory
pub mod Init
pub mod Threads
