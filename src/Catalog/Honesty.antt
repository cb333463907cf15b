-- ===== src/Catalog/Honesty.antt =====
-- `Honesty` of crates/console-server/src/history/catalog.rs. The engine's tag `mock` has no
-- constructor.
use muser_console.Base.{Bool, true, false, Text, codes, text_eq, if◌then◌else◌, Option, none, some}

pub data Honesty : Type 0 where
  measured target agent_measured : Honesty

abbrev pub as_str : Honesty → Text
as_str measured = codes "measured"
as_str target = codes "target"
as_str agent_measured = codes "agent-measured"

unfoldable pub from_tag : Text → Option Honesty
from_tag tag =
    if text_eq tag (codes "measured")
    then some measured
    else if text_eq tag (codes "target")
    then some target
    else if text_eq tag (codes "agent-measured")
    then some agent_measured
    else none

-- `==` on the enum
abbrev pub same : Honesty → Honesty → Bool
same measured measured = true
same target target = true
same agent_measured agent_measured = true
same _ _ = false
