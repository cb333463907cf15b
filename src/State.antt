-- ===== src/State.antt =====
-- crates/console-server/src/state.rs: the shared server state. Each method returns the new state;
-- `Instant::now()` is the argument `now` in milliseconds, and what `getrandom::fill` yields is an
-- argument, `none` where it fails. A method holds the mutex of each map it touches, so it is one step.
pub mod Maps
pub mod Types
pub mod Headers
pub mod Tickets
pub mod Sessions
pub mod Pairings
