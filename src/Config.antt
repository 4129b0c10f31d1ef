-- ===== src/Config.antt =====
-- The configuration manager: keys, messages, the ledger's entries and the cache.
pub mod Key
pub mod Message
pub mod Parse
pub mod Stub
pub mod Manager
pub mod Service
