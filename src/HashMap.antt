-- ===== src/HashMap.antt =====
-- store/hash_map: the map that keeps uncommitted changes over committed elements over a transaction
-- of the store.
pub mod Store
pub mod Types
pub mod Ops
pub mod Commit
pub mod Element
pub mod View
pub mod Rollback
pub mod Keys
pub mod Rounds
pub mod Loops
pub mod Durable
pub mod Persist
pub mod WellFormed
pub mod Recreated
pub mod Reachable
pub mod Success
