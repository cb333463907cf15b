-- ===== src/History/Store/Refines.antt =====
-- The writer of crates/console-server/src/history/store.rs seen as a map from the primary key to the row that was
-- written last.
use muser_console.Base.{
  ℕ, ◌≤◌, true, not, ltb, Text, List, [], ◌∷◌, Option, none, some, Option-cases, All, ◌≡◌, refl,
  ◌∙◌, ap, inl, inr, arith,
}
use muser_console.Float.{Float}
use muser_console.History.Table.{Row}
use muser_console.History.Table.Laws.{row_at, row_at-retain, has_key_iff}
use muser_console.History.Maintain.{Faults, maintain, expiry_of, cutoff_of}
use muser_console.History.Maintain.Keeps.{pass_spares}
use muser_console.History.Store.{
  Command, write_batch, write_command, query_command, maintain_command, Writer, handle, writer_loop,
  write_batch,
}
use muser_console.History.Store.Laws.{batch_row, or_else, write_batch-stores}

module _ (float : Float) (avg : List float.F64 → float.F64) where
  -- the row of the last sample with the key in the batches that SQLite accepted
  abbrev pub last_written : Text → Text → ℕ → List (Command float avg) → Option (Row float)
  last_written name series ts [] = none
  last_written name series ts (write_command samples none ∷ cs) =
      or_else float avg (last_written name series ts cs)
        (batch_row float avg name series ts samples)
  last_written name series ts (write_command samples (some fault) ∷ cs) =
      last_written name series ts cs
  last_written name series ts (query_command request fault ∷ cs) = last_written name series ts cs
  last_written name series ts (maintain_command now_ms days faults ∷ cs) =
      last_written name series ts cs

  -- the instant is neither old enough to be collapsed by the command nor expired by it
  abbrev pub IsYoung : ℕ → Command float avg → Type 0
  IsYoung ts (write_command samples fault) = Unit
  IsYoung ts (query_command request fault) = Unit
  IsYoung ts (maintain_command now_ms days faults) =
      (cutoff_of now_ms ≤ ts) × (expiry_of now_ms days ≤ ts)

  or_else_assoc :
      (a b c : Option (Row float))
      → or_else float avg a (or_else float avg b c) ≡ or_else float avg (or_else float avg a b) c
  or_else_assoc none b c = refl
  or_else_assoc (some r) b c = refl

  maintain_spares :
      (name series : Text) (ts : ℕ) (rows : List (Row float)) (now_ms days : ℕ) (faults : Faults)
      → cutoff_of now_ms ≤ ts
      → expiry_of now_ms days ≤ ts
      → row_at float name series ts (maintain float avg faults rows now_ms days).0
        ≡ row_at float name series ts rows
  unfolding maintain
  maintain_spares name series ts rows now_ms days faults young kept =
      let unexpired =
        row_at-retain float (λ r. not (ltb r.ts (expiry_of now_ms days))) name series ts rows true
          (λ r hit.
            let (x, y, z) = (has_key_iff float name series ts r).0 hit in
            ground (arith, z, kept)) in
      elim (Option-cases faults.delete_error) [
        | inr (e, d) ↦ rw d refl
        | inl d ↦ elim (Option-cases faults.select_error) [
          | inr (e, s) ↦ rw (d, s) unexpired
          | inl s ↦ elim (Option-cases faults.transaction_error) [
            | inr (e, x) ↦ rw (d, s, x) unexpired
            | inl x ↦
                rw (d, s, x) (pass_spares float avg name series ts rows now_ms days young kept)
          ]
        ]
      ]

  -- The writer is a store: whatever it is sent, in whatever order, and whichever statements SQLite refuses,
  -- under each key stands the row of the last sample that an accepted batch had for it, or, if none had one,
  -- what stood there before. This holds of each instant that no maintenance in between collapses or expires; a
  -- refused batch, a query and a maintenance leave no trace there.
  pub writer_loop-stores :
      (name series : Text) (ts : ℕ) (cs : List (Command float avg)) (w : Writer float avg)
      → All (IsYoung ts) cs
      → row_at float name series ts (writer_loop float avg cs w).table
        ≡ or_else float avg (last_written name series ts cs) (row_at float name series ts w.table)
  unfolding writer_loop handle write_batch
  writer_loop-stores name series ts [] w h = refl
  writer_loop-stores name series ts (write_command samples none ∷ cs) w (_, h) =
      writer_loop-stores name series ts cs (handle float avg (write_command samples none) w).0 h
      ∙ ap (or_else float avg (last_written name series ts cs))
          (write_batch-stores float avg name series ts w.table samples)
      ∙ or_else_assoc (last_written name series ts cs) (batch_row float avg name series ts samples)
          (row_at float name series ts w.table)
  writer_loop-stores name series ts (write_command samples (some fault) ∷ cs) w (_, h) =
      writer_loop-stores name series ts cs
        (handle float avg (write_command samples (some fault)) w).0 h
  writer_loop-stores name series ts (query_command request none ∷ cs) w (_, h) =
      writer_loop-stores name series ts cs w h
  writer_loop-stores name series ts (query_command request (some fault) ∷ cs) w (_, h) =
      writer_loop-stores name series ts cs w h
  writer_loop-stores name series ts (maintain_command now_ms days faults ∷ cs) w
        ((young, kept), h) =
      writer_loop-stores name series ts cs
        (handle float avg (maintain_command now_ms days faults) w).0 h
      ∙ ap (or_else float avg (last_written name series ts cs))
          (maintain_spares name series ts w.table now_ms days faults young kept)
