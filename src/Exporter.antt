-- ===== src/Exporter.antt =====
-- The sidecar exporters of agents/: what they publish, which the console's sampler reads.
pub mod Mac
pub mod Gx10
