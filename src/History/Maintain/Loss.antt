-- ===== src/History/Maintain/Loss.antt =====
-- What the pass of crates/console-server/src/history/store.rs does at the edge of the retention window.
use muser_console.Base.{
  ℕ, ◌+◌, ◌≤◌, ◌<◌, true, false, ◌==◌, ltb, leb, ==_iff, text_eq_refl, List, [], ◌∷◌, ◌≡◌, ◌≢◌,
  refl, arith,
}
use muser_console.Float.{Float}
use muser_console.History.Table.{Row, insert_or_replace}
use muser_console.History.Bucket.{start_of}
use muser_console.History.Maintain.{
  bucket_ms, expiry_of, cutoff_of, groups, candidate, group_of, candidates, collapse, collapse_all,
  collapsed_row, pass, Maintenance,
}

module _ (float : Float) (avg : List float.F64 → float.F64) where
  -- A measurement inside the retention window, in a bucket that opens before it, alone in the store.
  pub record AtEdge (r : Row float) (now_ms days : ℕ) : Type 0 where
    pub kept : expiry_of now_ms days ≤ r.ts
    pub old : r.ts < cutoff_of now_ms
    pub straddles : start_of bucket_ms r.ts < expiry_of now_ms days

  abbrev alone : Row float → Row float
  alone r = collapsed_row float avg (candidate float avg (group_of float avg r) r [])

  moves_one :
      (r : Row float) (report : Maintenance)
      → start_of bucket_ms r.ts < r.ts
      → (collapse float avg (candidate float avg (group_of float avg r) r []) (r ∷ [], report)).0
        ≡ (alone r ∷ [])
  unfolding collapse insert_or_replace
  moves_one r report inside =
      let below : (leb (start_of bucket_ms r.ts) r.ts ≡ true) = ground (arith, inside) in
      let above : (ltb r.ts (start_of bucket_ms r.ts + bucket_ms) ≡ true) = ground arith in
      let off : ((r.ts == start_of bucket_ms r.ts) ≡ false) = ground (arith, inside) in
      rw (off, below, above, text_eq_refl r.instance_name, text_eq_refl r.series) refl

  moves :
      (r : Row float) (now_ms days : ℕ)
      → AtEdge r now_ms days
      → (pass float avg (r ∷ []) now_ms days).0 ≡ (alone r ∷ [])
  unfolding pass candidates groups collapse collapse_all insert_or_replace
  moves r now_ms days edge =
      let e : (ltb r.ts (expiry_of now_ms days) ≡ false) = ground (arith, edge.kept) in
      let f : (ltb r.ts (cutoff_of now_ms) ≡ true) = ground (arith, edge.old) in
      let g : ((start_of bucket_ms r.ts == start_of bucket_ms r.ts) ≡ true) =
        (==_iff (start_of bucket_ms r.ts) (start_of bucket_ms r.ts)).1 refl in
      rw (e, f, text_eq_refl r.instance_name, text_eq_refl r.series, g)
        (moves_one r _ (omega (arith, edge.kept, edge.straddles)))

  expires :
      (r : Row float) (now_ms days : ℕ)
      → r.ts < expiry_of now_ms days
      → ((pass float avg (r ∷ []) now_ms days).0 ≡ [])
        × ((pass float avg (r ∷ []) now_ms days).1.rows_expired ≡ 1)
  unfolding pass candidates groups collapse_all
  expires r now_ms days h =
      let e : (ltb r.ts (expiry_of now_ms days) ≡ true) = ground (arith, h) in rw e (refl, refl)

  -- The row of a straddling bucket is moved before the window by one pass, and the next pass, at the
  -- same instant, deletes it: a measurement that the retention promises to keep is lost, and a repeated
  -- pass is not idle.
  pub pass_loses :
      (r : Row float) (now_ms days : ℕ)
      → AtEdge r now_ms days
      → let once = (pass float avg (r ∷ []) now_ms days).0 in
        (once ≢ [])
        × ((pass float avg once now_ms days).0 ≡ [])
        × ((pass float avg once now_ms days).1.rows_expired ≡ 1)
  pass_loses r now_ms days edge =
      let (gone, count) = expires (alone r) now_ms days edge.straddles in
      rw (moves r now_ms days edge) ((λ e. cc e), gone, count)
