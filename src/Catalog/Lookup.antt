-- ===== src/Catalog/Lookup.antt =====
-- `all`, `lookup` and `with_source` of crates/console-server/src/history/catalog.rs.
use muser_console.Base.{Text, text_eq, find, retain, Option, List, ◌++◌}
use muser_console.Catalog.Series.{Series}
use muser_console.Catalog.Source.{Source, same}
use muser_console.Catalog.Engine.{catalog}
use muser_console.Catalog.Agents.{agent_catalog}

-- the engine's series first, the agents' after
unfoldable pub all : List Series
unfolding catalog agent_catalog
all = catalog ++ agent_catalog

unfoldable pub lookup : Text → Option Series
lookup name = find (λ series. text_eq series.name name) all

unfoldable pub with_source : Source → List Series
with_source source = retain (λ series. same series.source source) all
