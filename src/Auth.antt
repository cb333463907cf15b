-- ===== src/Auth.antt =====
-- crates/console-server/src/auth.rs: the comparison of secrets and the bearer header.
pub mod Compare
pub mod Bearer
