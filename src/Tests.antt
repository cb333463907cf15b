-- ===== src/Tests.antt =====
-- The theorems at concrete inputs.
mod Data
mod State
mod Config
mod Routes
mod Handlers
mod Pairings
mod Store
mod Sampler
mod Exposition
mod Query
mod Mac
mod Gx10
