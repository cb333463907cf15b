-- ===== src/History/Store.antt =====
-- The writer thread of crates/console-server/src/history/store.rs: `write_batch`, `note_failure`,
-- `writer_loop`, and the calls that reach it. What SQLite answers to a statement comes with the command.
pub mod Laws
pub mod Refines
use muser_console.Base.{
  ℕ, Bool, true, false, ◌&&◌, Text, codes, text_eq, List, [], ◌∷◌, ◌++◌, Option, none, some,
  is_some, if◌then◌else◌,
}
use muser_console.Float.{Float}
use muser_console.History.Table.{Sample, Row, row_of, insert_or_replace}
use muser_console.History.Bucket.{Query, SeriesData, read_range}
use muser_console.History.Maintain.{
  Faults, Maintenance, StoreError, sqlite, closed, Outcome, ok, err, maintain,
}

-- `Display` of the error
abbrev pub message_of : StoreError → Text
message_of (sqlite message) = codes "history store: " ++ message
message_of closed = codes "history store is closed"

-- a line that the writer logs
pub data Note : Type 0 where
  write_failed : Text → Note
  recovered : Note

abbrev pub same_failure : Option Text → Option Text → Bool
same_failure none none = true
same_failure (some a) (some b) = text_eq a b
same_failure _ _ = false

-- the lines logged; the new state is `current` in either case
unfoldable pub note_failure : Option Text → Option Text → List Note
note_failure previous current = if same_failure previous current then [] else elim current [
  | some message ↦ write_failed message ∷ []
  | none ↦ if is_some previous then recovered ∷ [] else []
]

module _ (float : Float) (avg : List float.F64 → float.F64) where
  abbrev pub insert_all : List (Sample float) → List (Row float) → List (Row float)
  insert_all [] table = table
  insert_all (sample ∷ samples) table =
      insert_all samples (insert_or_replace float (row_of float sample) table)

  -- one transaction: a statement that fails takes the whole batch with it
  unfoldable pub write_batch :
      Option Text → List (Row float) → List (Sample float) → List (Row float) × Option StoreError
  write_batch (some fault) table samples = (table, some (sqlite fault))
  write_batch none table samples = (insert_all samples table, none)

  pub data Command : Type 0 where
    write_command : List (Sample float) → Option Text → Command
    query_command : Query float → Option Text → Command
    maintain_command : ℕ → ℕ → Faults → Command

  pub data Reply : Type 0 where
    no_reply : Reply
    query_reply : Outcome (List (Text × SeriesData float)) → Reply
    maintain_reply : Outcome Maintenance → Reply

  pub record Writer : Type 0 where
    pub table : List (Row float)
    pub last_failure : Option Text
    pub notes : List Note

  abbrev pub failure_of : Option StoreError → Option Text
  failure_of none = none
  failure_of (some e) = some (message_of e)

  -- one round of the loop
  unfoldable pub handle : Command → Writer → Writer × Reply
  unfolding write_batch note_failure read_range maintain
  handle (write_command samples fault) w =
      let (table', failure) = write_batch fault w.table samples in
      let current = failure_of failure in
      (
        record {
          table = table';
          last_failure = current;
          notes = w.notes ++ note_failure w.last_failure current;
        },
        no_reply,
      )
  handle (query_command request none) w = (w, query_reply (ok (read_range float w.table request)))
  handle (query_command request (some fault)) w = (w, query_reply (err (sqlite fault)))
  handle (maintain_command now_ms retention_days faults) w =
      let (table', outcome) = maintain float avg faults w.table now_ms retention_days in
      (record w { table = table' }, maintain_reply outcome)

  -- the loop over the commands received until the senders are gone
  unfoldable pub writer_loop : List Command → Writer → Writer
  unfolding handle
  writer_loop [] w = w
  writer_loop (c ∷ cs) w = writer_loop cs (handle c w).0

  -- `HistoryStore::write`: an empty batch is not sent
  unfoldable pub write : List (Sample float) → Option Text → Writer → Writer
  unfolding handle
  write [] fault w = w
  write (sample ∷ samples) fault w = (handle (write_command (sample ∷ samples) fault) w).0

  -- `HistoryStore::query`; `alive` is whether the writer still receives
  unfoldable pub query :
      Bool → Query float → Option Text → Writer → Outcome (List (Text × SeriesData float))
  unfolding handle
  query false request fault w = err closed
  query true request fault w = elim (handle (query_command request fault) w).1 [
    | no_reply ↦ err closed
    | query_reply answer ↦ answer
    | maintain_reply _ ↦ err closed
  ]
