-- ===== src/Core.antt =====
-- The crate rabia-core: identifiers, errors, messages, phases, cluster membership, validation.
pub mod Types
pub mod Error
pub mod Batching
pub mod Pool
pub mod Message
pub mod Network
pub mod Phase
pub mod Validation
pub mod Serialization
pub mod Processor
pub mod Strings
pub mod Ids
pub mod Examples
