-- ===== src/Config.antt =====
-- crates/console-server/src/config.rs: the configuration file, its validation and the validated data.
pub mod Types
pub mod Result
pub mod Files
pub mod Url
pub mod Tls
pub mod Entries
pub mod Parse
