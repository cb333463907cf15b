-- ===== src/History/Bucket.antt =====
-- `bucket` of crates/console-server/src/history/store.rs, and the range read that applies it.
pub mod Laws
pub mod Few
use muser_console.Base.{
  ℕ, zero, suc, ◌+◌, ◌*◌, ◌/◌, Bool, true, false, not, ◌||◌, ◌==◌, ltb, Text, codes, List, [], ◌∷◌,
  ◌++◌, map, length, any, Option, none, some, unwrap_or, if◌then◌else◌,
}
use muser_console.Float.{Float, Decimal}
use muser_console.Catalog.Kind.{Kind, gauge, counter}
use muser_console.Catalog.Honesty.{Honesty, from_tag, same}
use muser_console.Catalog.Series.{Series}
use muser_console.Catalog.Lookup.{lookup}
use muser_console.History.Table.{Row, select_range}

abbrev pub native_step_s : ℕ
native_step_s = 1

-- `ts.div_euclid(width_ms) * width_ms`
abbrev pub start_of : ℕ → ℕ → ℕ
start_of width_ms ts = ts / width_ms * width_ms

-- `catalog::lookup(name).map_or(Kind::Gauge, |series| series.kind)`
abbrev pub kind_of : Text → Kind
kind_of name = elim (lookup name) [ none ↦ gauge | some s ↦ s.kind ]

module _ (float : Float) where
  abbrev pub Point : Type 0
  Point = ℕ × float.F64

  -- The inner `while`: the points from `end` on that lie in the bucket, and the rest.
  unfoldable pub take_bucket : ℕ → ℕ → List Point → List Point × List Point
  take_bucket width_ms start [] = ([], [])
  take_bucket width_ms start ((ts, value) ∷ points) =
      let (inside, outside) = take_bucket width_ms start points in
      elim (start_of width_ms ts == start) [
        | true ↦ ((ts, value) ∷ inside, outside)
        | false ↦ ([], (ts, value) ∷ points)
      ]

  -- `slice.iter().map(|(_, value)| value).sum::<f64>()`, which starts from -0.0
  abbrev pub sum_values : float.F64 → List Point → float.F64
  sum_values acc [] = acc
  sum_values acc ((ts, value) ∷ points) = sum_values (float.add acc value) points

  abbrev pub last_value : float.F64 → List Point → float.F64
  last_value value [] = value
  last_value value ((ts, v) ∷ points) = last_value v points

  -- the value of a bucket that holds `first` and the points behind it
  abbrev pub aggregate : Kind → Point → List Point → float.F64
  aggregate gauge first points =
      float.div (sum_values float.neg_zero (first ∷ points)) (float.of_ℕ (suc (length points)))
  aggregate counter (ts, value) points = last_value value points

  -- The outer `while`, on fuel: each round consumes at least the point that opens its bucket. A width of zero,
  -- where `div_euclid` panics, does not reach it: the step is above one.
  unfoldable pub bucket_with : ℕ → List Point → ℕ → Kind → List Point
  unfolding take_bucket
  bucket_with zero points width_ms kind = []
  bucket_with (suc fuel) [] width_ms kind = []
  bucket_with (suc fuel) ((ts, value) ∷ points) width_ms kind =
      let start = start_of width_ms ts in
      let (inside, outside) = take_bucket width_ms start points in
      (start, aggregate kind (ts, value) inside) ∷ bucket_with fuel outside width_ms kind

  unfoldable pub bucket : List Point → ℕ → Kind → List Point
  unfolding bucket_with
  bucket points width_ms kind = bucket_with (length points) points width_ms kind

  pub record Query : Type 0 where
    pub instance_name : Text
    pub series : List Text
    pub from_ms : ℕ
    pub to_ms : ℕ
    pub step_s : ℕ

  pub record SeriesData : Type 0 where
    pub points : List Point
    pub honesty : List Honesty

  unfoldable pub sole_honesty : SeriesData → Option Honesty
  sole_honesty d = elim d.honesty [
    | [] ↦ none
    | only ∷ rest ↦ elim rest [ [] ↦ some only | _ ∷ _ ↦ none ]
  ]

  -- the tags of the rows in the order in which they first appear
  abbrev pub note_tag : List Honesty → Option Honesty → List Honesty
  note_tag honesty none = honesty
  note_tag honesty (some tag) = if any (same tag) honesty then honesty else honesty ++ tag ∷ []

  unfoldable pub tags : List Honesty → List (Row float) → List Honesty
  tags honesty [] = honesty
  tags honesty (row ∷ rows) = tags (note_tag honesty (from_tag row.honesty)) rows

  abbrev pub point_of : Row float → Point
  point_of row = (row.ts, row.value)

  -- The milliseconds of the step are the source's where they fit in 64 bits.
  unfoldable pub read_series : List (Row float) → Query → Text → Text × SeriesData
  unfolding bucket tags
  read_series table request name =
      let rows =
        select_range float request.instance_name name request.from_ms request.to_ms table in
      let points = map point_of rows in
      (
        name,
        record {
          points =
              if ltb native_step_s request.step_s
              then bucket points (request.step_s * 1000) (kind_of name)
              else points;
          honesty = tags [] rows;
        },
      )

  unfoldable pub read_range : List (Row float) → Query → List (Text × SeriesData)
  unfolding read_series
  read_range table request = map (read_series table request) request.series
