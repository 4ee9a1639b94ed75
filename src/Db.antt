-- ===== src/Db.antt =====
-- db/: events, filters, keys and the store.
pub mod Error
pub mod Key
pub mod Event
pub mod Filter
pub mod Validate
pub mod Store
pub mod Codec
pub mod Tables
pub mod MatchIndex
pub mod Query
