-- ===== src/History/Sampler.antt =====
-- The sampler of crates/console-server/src/history/sampler.rs: what a tick collects, stores and logs.
pub mod Health
pub mod Engine
pub mod Agents
pub mod Tick
