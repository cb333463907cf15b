-- ===== src/History/Api.antt =====
-- The query parameters of crates/console-server/src/history/api.rs: `Params::parse`, its defaults and its
-- checks.
pub mod Laws
pub mod Points
use muser_console.Base.{
  ℕ, ◌*◌, ◌/◌, ◌^◌, Bool, true, false, ltb, leb, not, Text, codes, text_eq, split, split_once, List,
  [], ◌∷◌, ◌++◌, map, retain, Option, none, some, unwrap_or, if◌then◌else◌,
}
use muser_console.Base.Signed.{ℤ, pos, negsuc, lt, checked_sub, parse_integer}
use muser_console.Catalog.Series.{Series}
use muser_console.Catalog.Lookup.{all, lookup}

abbrev pub default_window_ms : ℕ
default_window_ms = 15 * 60 * 1000

abbrev pub max_points_per_series : ℕ
max_points_per_series = 20_000

-- the messages, without their wording
pub data Refusal : Type 0 where
  not_integer : Text → Refusal
  unknown_parameter : Text → Refusal
  unknown_series : List Text → Refusal
  no_series : Refusal
  to_out_of_range : Refusal
  empty_range : Refusal
  small_step : Refusal
  range_too_large : Refusal
  step_too_large : Refusal
  too_many_points : ℕ → Refusal

pub data Outcome {ℓ} (A : Type ℓ) : Type ℓ where
  ok : A → Outcome A
  err : Refusal → Outcome A

-- what the loop over the pairs has found
pub record Raw : Type 0 where
  pub series_text : Option Text
  pub from_ms : Option ℤ
  pub to_ms : Option ℤ
  pub step_s : ℤ

abbrev pub no_parameters : Raw
no_parameters = record { series_text = none; from_ms = none; to_ms = none; step_s = pos 1 }

abbrev pub with_integer : Text → Text → (ℤ → Raw) → Outcome Raw
with_integer key value set = elim (parse_integer value) [
  | none ↦ err (not_integer key)
  | some n ↦ ok (set n)
]

-- one `key=value`
unfoldable pub read_pair : Raw → Text → Outcome Raw
read_pair raw pair =
    let (key, value) = unwrap_or (split_once pair 61) (pair, []) in
    if text_eq key (codes "series")
    then ok (record raw { series_text = some value })
    else if text_eq key (codes "from_ms")
    then with_integer key value (λ n. record raw { from_ms = some n })
    else if text_eq key (codes "to_ms")
    then with_integer key value (λ n. record raw { to_ms = some n })
    else if text_eq key (codes "step_s")
    then with_integer key value (λ n. record raw { step_s = n })
    else err (unknown_parameter key)

unfoldable pub read_pairs : List Text → Raw → Outcome Raw
unfolding read_pair
read_pairs [] raw = ok raw
read_pairs (pair ∷ pairs) raw = elim (read_pair raw pair) [
  | err e ↦ err e
  | ok raw' ↦ read_pairs pairs raw'
]

abbrev pub not_empty : Text → Bool
not_empty [] = false
not_empty (c ∷ s) = true

-- the names that the catalog has, and those that it does not have
unfoldable pub resolve_names : List Text → List Text × List Text
resolve_names [] = ([], [])
resolve_names (name ∷ names) =
    let (resolved, unknown) = resolve_names names in
    elim (lookup name) [
      | some entry ↦ (entry.name ∷ resolved, unknown)
      | none ↦ (resolved, name ∷ unknown)
    ]

abbrev pub chosen : List Text × List Text → Outcome (List Text)
chosen (resolved, name ∷ unknown) = err (unknown_series (name ∷ unknown))
chosen ([], []) = err no_series
chosen (name ∷ resolved, []) = ok (name ∷ resolved)

unfoldable pub series_of : Option Text → Outcome (List Text)
unfolding resolve_names
series_of none = ok (map (λ (s : Series). s.name) all)
series_of (some text) = chosen (resolve_names (retain not_empty (split text 44)))

pub record Params : Type 0 where
  pub series : List Text
  pub from_ms : ℤ
  pub to_ms : ℤ
  pub step_s : ℕ

-- the last checks: `step_s` is positive here and the span is not negative
abbrev pub bounded : List Text → ℤ → ℤ → ℕ → ℕ → Outcome Params
bounded series from_ms to_ms step_s span_ms =
    if not (ltb (step_s * 1000) (2 ^ 63))
    then err step_too_large
    else if ltb max_points_per_series (span_ms / (step_s * 1000))
    then err (too_many_points (span_ms / (step_s * 1000)))
    else ok (record { series = series; from_ms = from_ms; to_ms = to_ms; step_s = step_s })

abbrev pub spanned : List Text → ℤ → ℤ → ℕ → Option ℤ → Outcome Params
spanned series from_ms to_ms step_s none = err range_too_large
spanned series from_ms to_ms step_s (some (pos span_ms)) =
    bounded series from_ms to_ms step_s span_ms
spanned series from_ms to_ms step_s (some (negsuc n)) = err range_too_large

abbrev pub stepped : List Text → ℤ → ℤ → ℤ → Outcome Params
stepped series from_ms to_ms (negsuc n) = err small_step
stepped series from_ms to_ms (pos step_s) =
    if ltb step_s 1
    then err small_step
    else spanned series from_ms to_ms step_s (checked_sub to_ms from_ms)

unfoldable pub check_range : List Text → ℤ → ℤ → ℤ → Outcome Params
check_range series from_ms to_ms step_s =
    if not (lt from_ms to_ms) then err empty_range else stepped series from_ms to_ms step_s

-- `from_ms`, or a quarter of an hour before the end
abbrev pub start_of_range : Option ℤ → ℤ → Option ℤ
start_of_range (some value) to_ms = some value
start_of_range none to_ms = checked_sub to_ms (pos default_window_ms)

unfoldable pub finish : Raw → ℤ → Outcome Params
unfolding series_of check_range
finish raw now_ms = elim (series_of raw.series_text) [
  | err e ↦ err e
  | ok series ↦
      let to_ms = unwrap_or raw.to_ms now_ms in
      elim (start_of_range raw.from_ms to_ms) [
        | none ↦ err to_out_of_range
        | some from_ms ↦ check_range series from_ms to_ms raw.step_s
      ]
]

-- `Params::parse`
unfoldable pub parse : Option Text → ℤ → Outcome Params
unfolding read_pairs finish
parse query now_ms =
    elim (read_pairs (retain not_empty (split (unwrap_or query []) 38)) no_parameters) [
      | err e ↦ err e
      | ok raw ↦ finish raw now_ms
    ]
