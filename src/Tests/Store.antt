-- ===== src/Tests/Store.antt =====
-- The store at concrete inputs, the measurements whole numbers.
use muser_console.Base.{
  ℕ, ◌+◌, ◌*◌, ◌==◌, codes, List, [], ◌∷◌, ◌++◌, map, find, retain, none, some, ◌≡◌, ◌≢◌, arith,
}
use mathlib.Core.Option
use muser_console.Catalog.Kind.{gauge}
use muser_console.Catalog.Source
use muser_console.Catalog.Honesty.{measured}
use muser_console.History.Table.{Sample, Row, row_of}
use muser_console.History.Table.Laws.{row_at}
use muser_console.History.Bucket.{Query, Point, bucket, point_of, read_series}
use muser_console.History.Bucket.Laws.{Rising, filled, starts_at, bucket-find}
use muser_console.History.Maintain.{pass, expiry_of, cutoff_of, sqlite, no_faults, retention_ms}
use muser_console.History.Maintain.Keeps.{pass_spares}
use muser_console.History.Maintain.Loss.{AtEdge, pass_loses}
use muser_console.History.Store.Refines.{last_written, writer_loop-stores}
use muser_console.History.Store.{
  Command, Writer, write_command, maintain_command, write_failed, message_of, writer_loop,
}
use muser_console.History.Store.Laws.{or_else, writer_loop-logs_once, read_series-finds}
use muser_console.Tests.Data.{whole, mean}

abbrev points : List (Point whole)
points = (1000, 4) ∷ ((1500, 6) ∷ ((9000, 1) ∷ []))

rising : Rising whole points
rising = ((omega arith, (omega arith, tt)), ((omega arith, tt), (tt, tt)))

bucket-find_example :
    find (λ (q : Point whole). q.0 == 0) (bucket whole points 2000 gauge)
    ≡ filled whole 0 gauge (retain (starts_at whole 2000 0) points)
bucket-find_example = bucket-find whole points 2000 gauge 0 rising

abbrev sample_at : ℕ → ℕ → Sample whole
sample_at ts value = record {
  instance_name = codes "gx";
  series = codes "queue_depth";
  ts_ms = ts;
  value = value;
  source = Source.metrics;
  honesty = measured;
}

abbrev row_of_test : ℕ → ℕ → Row whole
row_of_test ts value = row_of whole (sample_at ts value)

abbrev table : List (Row whole)
table = row_of_test 1000 3 ∷ (row_of_test 2000 5 ∷ [])

abbrev idle : Writer whole mean
idle = record { table = table; last_failure = none; notes = [] }

writer_loop-logs_once_example :
    let run =
      writer_loop whole mean
        (map
          (λ b. write_command b (some (codes "disk full")))
          ((sample_at 1 1 ∷ []) ∷ ((sample_at 2 1 ∷ []) ∷ [])))
        idle in
    (run.notes ≡ [] ++ write_failed (message_of (sqlite (codes "disk full"))) ∷ [])
    × (run.table ≡ table)
writer_loop-logs_once_example =
    writer_loop-logs_once whole mean (codes "disk full") (sample_at 1 1 ∷ [])
      ((sample_at 2 1 ∷ []) ∷ []) idle (λ e. cc e)

abbrev request : Query whole
request = record {
  instance_name = codes "gx";
  series = codes "queue_depth" ∷ [];
  from_ms = 500;
  to_ms = 3000;
  step_s = 1;
}

read_series-finds_example :
    find
      (λ (p : Point whole). p.0 == 2000)
      (read_series whole table request (codes "queue_depth")).1.points
    ≡ Option.map (point_of whole) (row_at whole (codes "gx") (codes "queue_depth") 2000 table)
read_series-finds_example =
    read_series-finds whole mean table request (codes "queue_depth") 2000 (omega arith)
      (omega arith) (omega arith)

pass_spares_example :
    row_at whole (codes "gx") (codes "queue_depth") 2000 (pass whole mean table 3000 30).0
    ≡ row_at whole (codes "gx") (codes "queue_depth") 2000 table
unfolding cutoff_of expiry_of retention_ms
pass_spares_example =
    pass_spares whole mean (codes "gx") (codes "queue_depth") 2000 table 3000 30 (omega arith)
      (omega arith)

-- two days and a half minute after the epoch, with a retention of two days
abbrev late : ℕ
late = 2 * 86_400_000 + 30_000

edge : AtEdge whole mean (row_of_test 40_000 9) late 2
unfolding cutoff_of expiry_of retention_ms
edge = record { kept = omega arith; old = omega arith; straddles = omega arith }

pass_loses_example :
    let once = (pass whole mean (row_of_test 40_000 9 ∷ []) late 2).0 in
    (once ≢ [])
    × ((pass whole mean once late 2).0 ≡ [])
    × ((pass whole mean once late 2).1.rows_expired ≡ 1)
pass_loses_example = pass_loses whole mean (row_of_test 40_000 9) late 2 edge

abbrev commands : List (Command whole mean)
commands =
    write_command (sample_at 1500 4 ∷ []) none
    ∷ (write_command (sample_at 1500 7 ∷ []) (some (codes "disk full"))
        ∷ (maintain_command 3000 30 no_faults ∷ []))

writer_loop-stores_example :
    row_at whole
      (codes "gx")
      (codes "queue_depth")
      1500
      (writer_loop whole mean commands idle).table
    ≡ or_else whole mean
        (last_written whole mean (codes "gx") (codes "queue_depth") 1500 commands)
        (row_at whole (codes "gx") (codes "queue_depth") 1500 table)
unfolding cutoff_of expiry_of retention_ms
writer_loop-stores_example =
    writer_loop-stores whole mean (codes "gx") (codes "queue_depth") 1500 commands idle
      (tt, (tt, ((omega arith, omega arith), tt)))
