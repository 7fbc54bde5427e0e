-- ===== src/Engine.antt =====
-- The crate rabia-engine: the shared engine state, the leader, and the consensus engine.
pub mod State
pub mod Leader
pub mod Runtime
pub mod Config
pub mod Decide
pub mod Voting
pub mod Sync
pub mod Loop
pub mod Change
pub mod Growth
pub mod Silence
pub mod Ballots
pub mod Applied
pub mod Catchup
pub mod Requests
pub mod Samples
pub mod Examples
