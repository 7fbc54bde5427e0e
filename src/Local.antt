-- ===== src/Local.antt =====
-- What a single node can do without a cluster: the machine `InMemoryStateMachine` of
-- rabia-core/src/state_machine.rs.
pub mod Words
pub mod Machine
pub mod Persistence
pub mod Examples
