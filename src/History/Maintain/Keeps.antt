-- ===== src/History/Maintain/Keeps.antt =====
-- What the pass of crates/console-server/src/history/store.rs keeps: every row that is young enough to be left
-- alone.
use muser_console.Base.{
  ℕ, ◌+◌, ◌≤◌, ◌<◌, true, false, not, ltb, Bool-cases, Text, List, [], ◌∷◌, ◌≡◌, refl, ◌∙◌, inl,
  inr, arith, count_if, retain, All-retain, retain-passes, All, All-append,
}
use muser_console.Float.{Float}
use muser_console.History.Table.{Row, in_bucket, has_key, delete_before}
use muser_console.History.Table.Laws.{row_at, row_at-insert, row_at-retain, has_key_iff}
use muser_console.History.Maintain.{
  bucket_ms, expiry_of, cutoff_of, Candidate, Maintenance, is_settled, collapsed_row, groups,
  candidates, candidates_of, candidate_of, members, Group, collapse, collapse_all, pass,
}

module _ (float : Float) (avg : List float.F64 → float.F64) where
  abbrev first_report : List (Row float) → ℕ → ℕ → Maintenance
  first_report rows now_ms days = record {
    buckets_rewritten = 0;
    rows_collapsed = 0;
    rows_expired = count_if (λ r. ltb r.ts (expiry_of now_ms days)) rows;
  }

  -- a candidate of a bucket that ends at the cutoff or before it
  abbrev Below : ℕ → Candidate float avg → Type 0
  Below cutoff c = c.bucket + bucket_ms ≤ cutoff

  collapse_spares :
      (name series : Text) (ts cutoff : ℕ) (c : Candidate float avg) (rows : List (Row float))
      (report : Maintenance)
      → cutoff ≤ ts
      → Below cutoff c
      → row_at float name series ts (collapse float avg c (rows, report)).0
        ≡ row_at float name series ts rows
  unfolding collapse
  collapse_spares name series ts cutoff c rows report young below =
      elim (Bool-cases (is_settled float avg c)) [
        | inl e ↦ rw e
        | inr e ↦ rw e (
            row_at-insert float name series ts (collapsed_row float avg c) _
            ∙ rw (misses) (row_at-retain float _ name series ts rows true outside))
      ]
    where
      misses : has_key float name series ts (collapsed_row float avg c) ≡ false
      misses = elim (Bool-cases (has_key float name series ts (collapsed_row float avg c))) [
        | inr e ↦ e
        | inl e ↦
            let (x, y, z) = (has_key_iff float name series ts (collapsed_row float avg c)).0 e in
            absurd (omega (arith, z, young, below))
      ]

      outside :
          (r : Row float)
          → has_key float name series ts r ≡ true
          → not (in_bucket float c.instance_name c.series c.bucket (c.bucket + bucket_ms) r) ≡ true
      outside r hit =
          let (x, y, z) = (has_key_iff float name series ts r).0 hit in
          let late : (ltb r.ts (c.bucket + bucket_ms) ≡ false) = ground (arith, z, young, below) in
          ground (arith, late)

  collapse_all_spares :
      (name series : Text) (ts cutoff : ℕ) (cs : List (Candidate float avg))
      (rows : List (Row float)) (report : Maintenance)
      → cutoff ≤ ts
      → All (Below cutoff) cs
      → row_at float name series ts (collapse_all float avg cs (rows, report)).0
        ≡ row_at float name series ts rows
  unfolding collapse_all
  collapse_all_spares name series ts cutoff [] rows report young below = refl
  collapse_all_spares name series ts cutoff (c ∷ cs) rows report young (below, belows) =
      collapse_all_spares name series ts cutoff cs (collapse float avg c (rows, report)).0
        (collapse float avg c (rows, report)).1 young belows
      ∙ collapse_spares name series ts cutoff c rows report young below

  groups-below :
      (now_ms : ℕ) (rows : List (Row float))
      → All (λ r. ltb r.ts (cutoff_of now_ms) ≡ true) rows
      → All (λ (g : Group). g.bucket + bucket_ms ≤ cutoff_of now_ms) (groups float avg rows)
  unfolding groups cutoff_of
  groups-below now_ms [] h = tt
  groups-below now_ms (r ∷ rows) (hr, h) =
      let old : (r.ts < cutoff_of now_ms) = ground (arith, hr) in
      (omega (arith, old), All-retain _ _ (groups float avg rows) (groups-below now_ms rows h))

  candidate_of-Below :
      (cutoff : ℕ) (g : Group) (rows : List (Row float))
      → g.bucket + bucket_ms ≤ cutoff
      → All (Below cutoff) (candidate_of float avg g rows)
  candidate_of-Below cutoff g [] h = tt
  candidate_of-Below cutoff g (r ∷ rows) h = (h, tt)

  candidates_of-Below :
      (cutoff : ℕ) (gs : List Group) (rows : List (Row float))
      → All (λ (g : Group). g.bucket + bucket_ms ≤ cutoff) gs
      → All (Below cutoff) (candidates_of float avg gs rows)
  candidates_of-Below cutoff [] rows h = tt
  candidates_of-Below cutoff (g ∷ gs) rows (hg, h) =
      All-append (Below cutoff) (candidate_of float avg g (members float avg g rows)) _
        (candidate_of-Below cutoff g (members float avg g rows) hg)
        (candidates_of-Below cutoff gs rows h)

  -- A pass does not touch what is stored at an instant from the cutoff on, if the retention reaches back
  -- to that instant: the same row, or no row, is there before and after.
  pub pass_spares :
      (name series : Text) (ts : ℕ) (rows : List (Row float)) (now_ms days : ℕ)
      → cutoff_of now_ms ≤ ts
      → expiry_of now_ms days ≤ ts
      → row_at float name series ts (pass float avg rows now_ms days).0
        ≡ row_at float name series ts rows
  unfolding pass candidates
  pass_spares name series ts rows now_ms days young kept =
      let kept_rows = delete_before float (expiry_of now_ms days) rows in
      let old = retain (λ r. ltb r.ts (cutoff_of now_ms)) kept_rows in
      collapse_all_spares name series ts (cutoff_of now_ms)
        (candidates_of float avg (groups float avg old) old) kept_rows
        (first_report rows now_ms days) young
        (candidates_of-Below (cutoff_of now_ms) (groups float avg old) old
          (groups-below now_ms old (retain-passes _ kept_rows)))
      ∙ row_at-retain float (λ r. not (ltb r.ts (expiry_of now_ms days))) name series ts rows true
          unexpired
    where
      unexpired :
          (r : Row float)
          → has_key float name series ts r ≡ true
          → not (ltb r.ts (expiry_of now_ms days)) ≡ true
      unexpired r hit =
          let (x, y, z) = (has_key_iff float name series ts r).0 hit in ground (arith, z, kept)
