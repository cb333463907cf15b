-- ===== src/History/Table.antt =====
-- The table `samples` of crates/console-server/src/history/store.rs: `Sample`, a stored row, and the SQL
-- statements of that file on a list of rows. The list is kept in the order of the timestamps, so that
-- `ORDER BY ts` is a filter. A timestamp is a number of milliseconds since the epoch, as
-- `now_ms` of the sampler yields it, never negative.
pub mod Laws
use muser_console.Base.{
  ℕ, suc, ◌+◌, Bool, true, false, not, ◌&&◌, ◌==◌, ltb, leb, Text, text_eq, List, [], ◌∷◌, retain,
  if◌then◌else◌,
}
use muser_console.Float.{Float}
use muser_console.Catalog.Source.{Source}
use muser_console.Catalog.Source
use muser_console.Catalog.Honesty.{Honesty}
use muser_console.Catalog.Honesty

module _ (float : Float) where
  pub record Sample : Type 0 where
    pub instance_name : Text
    pub series : Text
    pub ts_ms : ℕ
    pub value : float.F64
    pub source : Source
    pub honesty : Honesty

  pub record Row : Type 0 where
    pub instance_name : Text
    pub series : Text
    pub ts : ℕ
    pub value : float.F64
    pub source : Text
    pub honesty : Text

  -- the parameters that `write_batch` binds for one sample
  abbrev pub row_of : Sample → Row
  row_of s = record {
    instance_name = s.instance_name;
    series = s.series;
    ts = s.ts_ms;
    value = s.value;
    source = Source.as_str s.source;
    honesty = Honesty.as_str s.honesty;
  }

  abbrev pub same_series : Text → Text → Row → Bool
  same_series name series r = text_eq r.instance_name name && text_eq r.series series

  -- the primary key (instance, series, ts)
  abbrev pub has_key : Text → Text → ℕ → Row → Bool
  has_key name series ts r = same_series name series r && r.ts == ts

  abbrev pub place : Row → List Row → List Row
  place row [] = row ∷ []
  place row (r ∷ rows) = if leb row.ts r.ts then row ∷ (r ∷ rows) else r ∷ place row rows

  -- `INSERT OR REPLACE INTO samples`
  unfoldable pub insert_or_replace : Row → List Row → List Row
  insert_or_replace row rows =
      place row (retain (λ r. not (has_key row.instance_name row.series row.ts r)) rows)

  abbrev pub in_range : Text → Text → ℕ → ℕ → Row → Bool
  in_range name series from to r = same_series name series r && (leb from r.ts && leb r.ts to)

  -- `SELECT .. WHERE instance = ?1 AND series = ?2 AND ts >= ?3 AND ts <= ?4 ORDER BY ts`
  abbrev pub select_range : Text → Text → ℕ → ℕ → List Row → List Row
  select_range name series from to rows = retain (in_range name series from to) rows

  abbrev pub in_bucket : Text → Text → ℕ → ℕ → Row → Bool
  in_bucket name series low high r = same_series name series r && (leb low r.ts && ltb r.ts high)

  -- `DELETE FROM samples WHERE instance = ?1 AND series = ?2 AND ts >= ?3 AND ts < ?4`
  abbrev pub delete_bucket : Text → Text → ℕ → ℕ → List Row → List Row
  delete_bucket name series low high rows =
      retain (λ r. not (in_bucket name series low high r)) rows

  -- `DELETE FROM samples WHERE ts < ?1`
  abbrev pub delete_before : ℕ → List Row → List Row
  delete_before expiry rows = retain (λ r. not (ltb r.ts expiry)) rows
