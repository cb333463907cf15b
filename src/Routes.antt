-- ===== src/Routes.antt =====
-- The handlers of crates/console-server/src/routes.rs. Each takes the state and the instants of its steps
-- and returns the new state with its answer.
pub mod Origin
pub mod Peers
pub mod Proxied
pub mod Fleet
pub mod Login
pub mod Pair
pub mod Reach
