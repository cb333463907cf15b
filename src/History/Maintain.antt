-- ===== src/History/Maintain.antt =====
-- `maintain` of crates/console-server/src/history/store.rs: the retention and the downsampling pass.
pub mod Keeps
pub mod Loss
use muser_console.Base.{
  ℕ, zero, suc, ◌+◌, ◌-◌, ◌*◌, ◌/◌, ◌^◌, min, Bool, true, false, not, ◌&&◌, ◌==◌, ltb, leb, Text,
  text_eq, List, [], ◌∷◌, ◌++◌, map, retain, length, count_if, Option, none, some, if◌then◌else◌,
}
use muser_console.Float.{Float}
use muser_console.Catalog.Kind.{Kind, gauge, counter}
use muser_console.History.Table.{
  Row, same_series, insert_or_replace, in_bucket, delete_bucket, delete_before,
}
use muser_console.History.Bucket.{kind_of, start_of}

abbrev pub bucket_ms : ℕ
bucket_ms = 60_000

abbrev pub day_ms : ℕ
day_ms = 86_400_000

abbrev pub raw_window_ms : ℕ
raw_window_ms = 24 * 60 * 60 * 1000

abbrev pub i64_max : ℕ
i64_max = 2 ^ 63 - 1

pub record Maintenance : Type 0 where
  pub buckets_rewritten : ℕ
  pub rows_collapsed : ℕ
  pub rows_expired : ℕ

pub data StoreError : Type 0 where
  sqlite : Text → StoreError
  closed : StoreError

pub data Outcome {ℓ} (A : Type ℓ) : Type ℓ where
  ok : A → Outcome A
  err : StoreError → Outcome A

-- `i64::try_from(retention_days).unwrap_or(i64::MAX).saturating_mul(day)`
unfoldable pub retention_ms : ℕ → ℕ
retention_ms retention_days = min (min retention_days i64_max * day_ms) i64_max

-- `now_ms.saturating_sub(retention_ms)`. Below zero the deletion finds no row; so it does at zero,
-- since no timestamp is negative.
unfoldable pub expiry_of : ℕ → ℕ → ℕ
unfolding retention_ms
expiry_of now_ms retention_days = now_ms - retention_ms retention_days

-- `(now_ms - RAW_WINDOW_MS).div_euclid(BUCKET_MS) * BUCKET_MS`, at zero where the source's is negative:
-- no row lies below either.
unfoldable pub cutoff_of : ℕ → ℕ
cutoff_of now_ms = start_of bucket_ms (now_ms - raw_window_ms)

-- a group of `GROUP BY instance, series, bucket`
pub record Group : Type 0 where
  pub instance_name : Text
  pub series : Text
  pub bucket : ℕ

abbrev pub same_group : Group → Group → Bool
same_group a b =
    text_eq a.instance_name b.instance_name && (text_eq a.series b.series && a.bucket == b.bucket)

-- What SQLite answers where it fails: at the retention's `DELETE`, at the `SELECT`, and in the transaction
-- of the rewrites, which then leaves no trace.
pub record Faults : Type 0 where
  pub delete_error : Option Text
  pub select_error : Option Text
  pub transaction_error : Option Text

abbrev pub no_faults : Faults
no_faults = record { delete_error = none; select_error = none; transaction_error = none }

-- `avg` is SQLite's aggregate `AVG(value)`.
module _ (float : Float) (avg : List float.F64 → float.F64) where
  pub record Candidate : Type 0 where
    pub instance_name : Text
    pub series : Text
    pub bucket : ℕ
    pub count : ℕ
    pub newest_ts : ℕ
    pub mean : float.F64
    pub last : float.F64
    pub source : Text
    pub honesty : Text

  abbrev pub group_of : Row float → Group
  group_of r = record {
    instance_name = r.instance_name;
    series = r.series;
    bucket = start_of bucket_ms r.ts;
  }

  -- each group of the rows once
  unfoldable pub groups : List (Row float) → List Group
  groups [] = []
  groups (r ∷ rows) = group_of r ∷ retain (λ g. not (same_group (group_of r) g)) (groups rows)

  -- the row with `MAX(ts)`, from which SQLite takes the bare columns
  abbrev pub newest : Row float → List (Row float) → Row float
  newest r [] = r
  newest r (s ∷ rows) = newest (if ltb s.ts r.ts then r else s) rows

  abbrev pub members : Group → List (Row float) → List (Row float)
  members g rows = retain (λ r. same_group (group_of r) g) rows

  abbrev pub candidate : Group → Row float → List (Row float) → Candidate
  candidate g r rows =
      let top = newest r rows in
      record {
        instance_name = g.instance_name;
        series = g.series;
        bucket = g.bucket;
        count = suc (length rows);
        newest_ts = top.ts;
        mean = avg (map (λ (s : Row float). s.value) (r ∷ rows));
        last = top.value;
        source = top.source;
        honesty = top.honesty;
      }

  -- no group of the statement is empty
  abbrev pub candidate_of : Group → List (Row float) → List Candidate
  candidate_of g [] = []
  candidate_of g (r ∷ rows) = candidate g r rows ∷ []

  abbrev pub candidates_of : List Group → List (Row float) → List Candidate
  candidates_of [] rows = []
  candidates_of (g ∷ gs) rows = candidate_of g (members g rows) ++ candidates_of gs rows

  -- `SELECT .. FROM samples WHERE ts < ?2 GROUP BY instance, series, bucket`
  unfoldable pub candidates : ℕ → List (Row float) → List Candidate
  unfolding groups
  candidates cutoff table =
      let rows = retain (λ r. ltb r.ts cutoff) table in candidates_of (groups rows) rows

  abbrev pub is_settled : Candidate → Bool
  is_settled c = c.count == 1 && c.newest_ts == c.bucket

  abbrev pub collapsed_row : Candidate → Row float
  collapsed_row c = record {
    instance_name = c.instance_name;
    series = c.series;
    ts = c.bucket;
    value = elim (kind_of c.series) [ gauge ↦ c.mean | counter ↦ c.last ];
    source = c.source;
    honesty = c.honesty;
  }

  -- one round of the loop over the candidates
  unfoldable pub collapse :
      Candidate → List (Row float) × Maintenance → List (Row float) × Maintenance
  collapse c (table, report) = if is_settled c then (table, report) else (
    insert_or_replace float (collapsed_row c)
        (delete_bucket float c.instance_name c.series c.bucket (c.bucket + bucket_ms) table),
    record report {
      rows_collapsed =
          report.rows_collapsed
          + count_if (in_bucket float c.instance_name c.series c.bucket (c.bucket + bucket_ms))
              table;
      buckets_rewritten = report.buckets_rewritten + 1;
    },
  )

  unfoldable pub collapse_all :
      List Candidate → List (Row float) × Maintenance → List (Row float) × Maintenance
  unfolding collapse
  collapse_all [] r = r
  collapse_all (c ∷ cs) r = collapse_all cs (collapse c r)

  -- the pass where SQLite does not fail
  unfoldable pub pass : List (Row float) → ℕ → ℕ → List (Row float) × Maintenance
  unfolding collapse_all candidates expiry_of cutoff_of
  pass table now_ms retention_days =
      let expiry = expiry_of now_ms retention_days in
      let kept = delete_before float expiry table in
      let report : Maintenance = record {
        buckets_rewritten = 0;
        rows_collapsed = 0;
        rows_expired = count_if (λ r. ltb r.ts expiry) table;
      } in
      collapse_all (candidates (cutoff_of now_ms) kept) (kept, report)

  unfoldable pub maintain :
      Faults → List (Row float) → ℕ → ℕ → List (Row float) × Outcome Maintenance
  unfolding pass
  maintain faults table now_ms retention_days =
      let kept = delete_before float (expiry_of now_ms retention_days) table in
      elim faults.delete_error [
        | some e ↦ (table, err (sqlite e))
        | none ↦ elim faults.select_error [
          | some e ↦ (kept, err (sqlite e))
          | none ↦ elim faults.transaction_error [
            | some e ↦ (kept, err (sqlite e))
            | none ↦ let (table', report) = pass table now_ms retention_days in (table', ok report)
          ]
        ]
      ]
