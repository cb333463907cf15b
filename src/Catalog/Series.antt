-- ===== src/Catalog/Series.antt =====
-- `Extraction`, `Series` and the constructors of its entries, from
-- crates/console-server/src/history/catalog.rs.
use muser_console.Base.{Text, codes, Option, none, some}
use muser_console.Float.{Decimal}
use muser_console.Catalog.Kind.{Kind, gauge}
use muser_console.Catalog.Source.{Source}

pub data Extraction : Type 0 where
  prometheus : Text → Option Text → Extraction
  snapshot : Text → Extraction
  transfers_active : Extraction
  transfer_last : Text → Decimal → Extraction
  agent : Text → Option Text → Extraction

pub record Series : Type 0 where
  pub name : Text
  pub kind : Kind
  pub source : Source
  pub unit : Text
  pub extraction : Extraction
  pub honesty_path : Option Text

abbrev pub prom : Text → Kind → Text → Text → Option Text → Series
prom name kind unit metric quantile = record {
  name = name;
  kind = kind;
  source = Source.metrics;
  unit = unit;
  extraction = prometheus metric quantile;
  honesty_path = none;
}

abbrev pub snap : Text → Kind → Text → Text → Text → Series
snap name kind unit path honesty_path = record {
  name = name;
  kind = kind;
  source = Source.snapshot;
  unit = unit;
  extraction = snapshot path;
  honesty_path = some honesty_path;
}

abbrev pub transfer_last_series : Text → Text → Text → Decimal → Series
transfer_last_series name unit field scale = record {
  name = name;
  kind = gauge;
  source = Source.snapshot;
  unit = unit;
  extraction = transfer_last field scale;
  honesty_path = some (codes "transfers");
}

abbrev pub agent_gpu : Text → Text → Text → Text → Series
agent_gpu name unit metric gpu = record {
  name = name;
  kind = gauge;
  source = Source.agent;
  unit = unit;
  extraction = agent metric (some gpu);
  honesty_path = none;
}

abbrev pub agent_host : Text → Text → Text → Series
agent_host name unit metric = record {
  name = name;
  kind = gauge;
  source = Source.agent;
  unit = unit;
  extraction = agent metric none;
  honesty_path = none;
}
