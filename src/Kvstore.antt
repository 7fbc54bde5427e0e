-- ===== src/Kvstore.antt =====
-- The crate rabia-kvstore: operations, the notification bus, and the store.
pub mod Operations
pub mod Notifications
pub mod Store
pub mod Examples
