-- ===== src/Relations.antt =====
-- src/relations: ranges, coverage, differences, identity and health of links.
pub mod Range
pub mod Coverage
pub mod Diff
pub mod Dirty
pub mod Node
pub mod Identity
pub mod LinkHealth
pub mod Atomic
