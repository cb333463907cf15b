-- ===== src/Exporter/Mac/Render/Laws.antt =====
-- The console's parser, crates/console-server/src/history/prom.rs, on the documents of
-- agents/mac-exporter/src/expo.rs.
use muser_console.Float.{Float}
use muser_console.Exporter.Mac.Scrape.{Scrape}
