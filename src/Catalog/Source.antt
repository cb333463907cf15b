-- ===== src/Catalog/Source.antt =====
-- `Source` of crates/console-server/src/history/catalog.rs.
use muser_console.Base.{Bool, true, false, Text, codes, text_eq, if◌then◌else◌, Option, none, some}

pub data Source : Type 0 where
  metrics snapshot agent : Source

abbrev pub as_str : Source → Text
as_str metrics = codes "metrics"
as_str snapshot = codes "snapshot"
as_str agent = codes "agent"

unfoldable pub from_stored : Text → Option Source
from_stored text =
    if text_eq text (codes "metrics")
    then some metrics
    else if text_eq text (codes "snapshot")
    then some snapshot
    else if text_eq text (codes "agent")
    then some agent
    else none

-- `==` on the enum
abbrev pub same : Source → Source → Bool
same metrics metrics = true
same snapshot snapshot = true
same agent agent = true
same _ _ = false
