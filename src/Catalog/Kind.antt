-- ===== src/Catalog/Kind.antt =====
-- `Kind` of crates/console-server/src/history/catalog.rs.
use muser_console.Base.{Text, codes}

pub data Kind : Type 0 where
  gauge counter : Kind

abbrev pub as_str : Kind → Text
as_str gauge = codes "gauge"
as_str counter = codes "counter"
