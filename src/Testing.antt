-- ===== src/Testing.antt =====
-- The crate rabia-testing: the simulated network.
pub mod Simulator
pub mod Simulated
pub mod InMemory
pub mod Faults
