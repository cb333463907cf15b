-- ===== src/History/Store/Laws.antt =====
-- What the writer of crates/console-server/src/history/store.rs keeps, stores and logs.
use muser_console.Base.{
  ℕ, ◌≤◌, ◌&&◌, ◌==◌, true, false, leb, ltb, Bool-cases, Text, text_eq_iff, text_eq_refl, text_eq,
  List, [], ◌∷◌, ◌++◌, append-nil, map, Option, find, none, some, Option-cases, ◌≡◌, ◌≢◌, refl, ◌∙◌,
  ap, inl, inr, arith, if◌then◌else◌, ==_iff,
}
use mathlib.Core.Option
use muser_console.Float.{Float}
use muser_console.History.Table.{
  Sample, Row, row_of, has_key, same_series, select_range, insert_or_replace,
}
use muser_console.History.Table.Laws.{row_at, row_at-insert}
use muser_console.History.Bucket.{Query, point_of, Point, read_series, native_step_s}
use muser_console.History.Maintain.{sqlite}
use muser_console.History.Store.{
  write_batch, write_command, Writer, handle, writer_loop, note_failure, write_failed, message_of,
}

fresh_failure :
    (previous : Option Text) (message : Text)
    → previous ≢ some message
    → note_failure previous (some message) ≡ (write_failed message ∷ [])
unfolding note_failure
fresh_failure none message h = refl
fresh_failure (some before) message h = elim (Bool-cases (text_eq before message)) [
  | inl e ↦ absurd (h (ap some ((text_eq_iff before message).0 e)))
  | inr e ↦ rw e
]

module _ (float : Float) (avg : List float.F64 → float.F64) where
  -- the row of the last sample of the batch with the key, if one has it
  abbrev pub batch_row : Text → Text → ℕ → List (Sample float) → Option (Row float)
  batch_row name series ts [] = none
  batch_row name series ts (s ∷ samples) = elim (batch_row name series ts samples) [
    | some r ↦ some r
    | none ↦ if has_key float name series ts (row_of float s) then some (row_of float s) else none
  ]

  abbrev pub or_else : Option (Row float) → Option (Row float) → Option (Row float)
  or_else (some r) other = some r
  or_else none other = other

  -- A batch that SQLite accepts stores its last sample for a key under that key, and leaves what is stored
  -- under the keys of none of its samples.
  pub write_batch-stores :
      (name series : Text) (ts : ℕ) (table : List (Row float)) (samples : List (Sample float))
      → row_at float name series ts (write_batch float avg none table samples).0
        ≡ or_else (batch_row name series ts samples) (row_at float name series ts table)
  unfolding write_batch
  write_batch-stores name series ts table [] = refl
  write_batch-stores name series ts table (s ∷ samples) =
      let rest =
        write_batch-stores name series ts (insert_or_replace float (row_of float s) table)
          samples in
      let insert = row_at-insert float name series ts (row_of float s) table in
      elim (Option-cases (batch_row name series ts samples)) [
        | inr (r, later) ↦ rest ∙ rw later
        | inl only ↦ elim (Bool-cases (has_key float name series ts (row_of float s))) [
          | inl hit ↦ rest ∙ rw (only, insert, hit)
          | inr miss ↦ rest ∙ rw (only, insert, miss)
        ]
      ]

  -- A batch that SQLite refuses changes nothing, whatever statement failed.
  all_failed :
      (message : Text) (batches : List (List (Sample float))) (w : Writer float avg)
      → w.last_failure ≡ some (message_of (sqlite message))
      → let cs = map (λ b. write_command b (some message)) batches in
        ((writer_loop float avg cs w).notes ≡ w.notes)
        × ((writer_loop float avg cs w).table ≡ w.table)
  unfolding writer_loop handle write_batch note_failure
  all_failed message [] w h = (refl, refl)
  all_failed message (b ∷ batches) w h =
      let (notes, table) =
        all_failed message batches (handle float avg (write_command b (some message)) w).0 refl in
      (notes ∙ rw (h, text_eq_refl (message_of (sqlite message))) (append-nil w.notes), table)

  -- While every write fails for the same reason, one line is logged, for the first of them, and the table
  -- stays as it was.
  pub writer_loop-logs_once :
      (message : Text) (first : List (Sample float)) (batches : List (List (Sample float)))
      (w : Writer float avg)
      → w.last_failure ≢ some (message_of (sqlite message))
      → let run =
          writer_loop float avg (map (λ b. write_command b (some message)) (first ∷ batches)) w in
        (run.notes ≡ w.notes ++ write_failed (message_of (sqlite message)) ∷ [])
        × (run.table ≡ w.table)
  unfolding writer_loop handle write_batch note_failure
  writer_loop-logs_once message first batches w fresh =
      let (notes, table) =
        all_failed message batches (handle float avg (write_command first (some message)) w).0
          refl in
      (
        notes
            ∙ ap (◌++◌ w.notes) (fresh_failure w.last_failure (message_of (sqlite message)) fresh),
        table,
      )

  find_point :
      (name series : Text) (from to ts : ℕ) (rows : List (Row float))
      → from ≤ ts
      → ts ≤ to
      → find
          (λ (p : Point float). p.0 == ts)
          (map (point_of float) (select_range float name series from to rows))
        ≡ Option.map (point_of float) (row_at float name series ts rows)
  find_point name series from to ts [] low high = refl
  find_point name series from to ts (r ∷ rows) low high =
      let rest = find_point name series from to ts rows low high in
      elim (Bool-cases (same_series float name series r)) [
        | inr other ↦ rw other rest
        | inl same ↦ elim (Bool-cases (r.ts == ts)) [
          | inl here ↦
              let at : (r.ts ≡ ts) = (==_iff r.ts ts).0 here in
              let a : (leb from r.ts ≡ true) = ground (arith, at, low) in
              let b : (leb r.ts to ≡ true) = ground (arith, at, high) in rw (same, a, b, here)
          | inr away ↦ elim (Bool-cases (leb from r.ts && leb r.ts to)) [
            | inl inside ↦ rw (same, away, inside, away) rest
            | inr outside ↦ rw (same, away, outside) rest
          ]
        ]
      ]

  -- A read at the native step has, at each instant of the range, the value stored there, and none where
  -- nothing is stored.
  pub read_series-finds :
      (table : List (Row float)) (request : Query float) (name : Text) (ts : ℕ)
      → request.step_s ≤ native_step_s
      → request.from_ms ≤ ts
      → ts ≤ request.to_ms
      → find (λ (p : Point float). p.0 == ts) (read_series float table request name).1.points
        ≡ Option.map (point_of float) (row_at float request.instance_name name ts table)
  unfolding read_series
  read_series-finds table request name ts native low high =
      let raw : (ltb native_step_s request.step_s ≡ false) = ground (arith, native) in
      rw raw (find_point request.instance_name name request.from_ms request.to_ms ts table low high)
