-- ===== src/History.antt =====
-- crates/console-server/src/history: the rolling history of measurements.
pub mod Table
pub mod Store
pub mod Prom
pub mod Json
pub mod Sampler
pub mod Api
pub mod Bucket
pub mod Maintain
