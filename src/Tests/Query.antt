-- ===== src/Tests/Query.antt =====
-- The query parameters at a concrete input.
use muser_console.Base.{ℕ, List, [], ◌∷◌, codes, map}
use muser_console.Base.Signed.{pos}
use muser_console.Catalog.Series.{Series}
use muser_console.Catalog.Lookup.{all}
use muser_console.History.Api.{Params}
use muser_console.Catalog.Source
use muser_console.Catalog.Honesty.{measured}
use muser_console.History.Table.{Row, row_of}
use muser_console.Tests.Data.{whole}

abbrev five_seconds : Params
five_seconds = record {
  series = map (λ (s : Series). s.name) all;
  from_ms = pos 9_100_000;
  to_ms = pos 10_000_000;
  step_s = 5;
}

abbrev row_at : ℕ → Row whole
row_at ts = row_of whole (record {
  instance_name = codes "gx";
  series = codes "queue_depth";
  ts_ms = ts;
  value = 4;
  source = Source.metrics;
  honesty = measured;
})

abbrev table : List (Row whole)
table = row_at 9_200_000 ∷ (row_at 9_201_000 ∷ [])
