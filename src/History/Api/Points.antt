-- ===== src/History/Api/Points.antt =====
-- How much an accepted query of crates/console-server/src/history/api.rs makes the store of
-- crates/console-server/src/history/store.rs return.
use muser_console.Float.{Float}
