-- ===== src/Catalog.antt =====
-- crates/console-server/src/history/catalog.rs: the fixed catalog of history series. The modules
-- below hold its vocabularies, its two tables, the lookups and what is proved of them.
pub mod Kind
pub mod Source
pub mod Honesty
pub mod Series
pub mod Engine
pub mod Agents
pub mod Lookup
pub mod Laws
