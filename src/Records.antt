-- ===== src/Records.antt =====
-- src/records: commits, their ids, the store and its publications.
pub mod Json
pub mod Id
pub mod Commit
pub mod Crates
pub mod Store
pub mod Reset
pub mod Version
pub mod Publish
pub mod Canonical
pub mod Session
pub mod Pipeline
mod Samples
