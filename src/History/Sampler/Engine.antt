-- ===== src/History/Sampler/Engine.antt =====
-- The engine's two documents in crates/console-server/src/history/sampler.rs: `collect_metrics`,
-- `collect_snapshot`, `gate_optional_features`, `honesty_for`, `snapshot_value`, `json_at`.
pub mod Laws
pub mod Snapshot
use muser_console.Base.{
  ℕ, zero, suc, Bool, true, false, not, ◌&&◌, Text, codes, text_eq, split, starts_with, List, [],
  ◌∷◌, ◌++◌, last, retain, count_if, Option, none, some, is_some, ◌>>=◌, length, if◌then◌else◌,
}
use muser_console.Float.{Float}
use muser_console.Catalog.Source.{Source}
use muser_console.Catalog.Source
use muser_console.Catalog.Honesty.{Honesty, measured, from_tag}
use muser_console.Catalog.Series.{
  Series, Extraction, prometheus, snapshot, transfers_active, transfer_last, agent,
}
use muser_console.Catalog.Lookup.{with_source}
use muser_console.History.Table.{Sample}
use muser_console.History.Json.{Json}
use muser_console.History.Prom.{filter_map, parse}
use muser_console.History.Prom

pub record Carry (float : Float) : Type 0 where
  pub completion_tokens : Option float.F64
  pub transfer_receipt : Option Text

abbrev pub new_carry : (float : Float) → Carry float
new_carry float = record { completion_tokens = none; transfer_receipt = none }

module _ (float : Float) where
  -- `(Some(previous), Some(current)) => current > previous, _ => false`
  abbrev pub advanced : Option float.F64 → Option float.F64 → Bool
  advanced (some previous) (some current) = float.gt current previous
  advanced _ _ = false

  -- the new value where there is one
  abbrev pub or_keep {ℓ} : {A : Type ℓ} → Option A → Option A → Option A
  or_keep none old = old
  or_keep (some new) old = some new

  abbrev pub finite : Option float.F64 → Option float.F64
  finite none = none
  finite (some value) = if float.is_finite value then some value else none

  abbrev pub sample : Text → ℕ → Series → Source → Honesty → float.F64 → Sample float
  sample name ts_ms series source honesty value = record {
    instance_name = name;
    series = series.name;
    ts_ms = ts_ms;
    value = value;
    source = source;
    honesty = honesty;
  }

  -- the value that one round of the loop in `collect_metrics` stores, if it stores one
  unfoldable pub metrics_value : Prom.Exposition float → Bool → Text → Extraction → Option float.F64
  metrics_value exposition completed_this_tick series (prometheus metric quantile) =
      if text_eq series (codes "request_decode_tok_s") && not completed_this_tick
      then none
      else finite (Prom.value float exposition metric quantile)
  metrics_value exposition completed_this_tick series (snapshot _) = none
  metrics_value exposition completed_this_tick series transfers_active = none
  metrics_value exposition completed_this_tick series (transfer_last _ _) = none
  metrics_value exposition completed_this_tick series (agent _ _) = none

  unfoldable pub metrics_sample :
      Prom.Exposition float → Bool → Text → ℕ → Series → Option (Sample float)
  unfolding metrics_value
  metrics_sample exposition completed_this_tick name ts_ms series =
      metrics_value exposition completed_this_tick series.name series.extraction
      >>= (λ value. some (sample name ts_ms series Source.metrics measured value))

  unfoldable pub collect_metrics :
      Text → Text → ℕ → Carry float → List (Sample float) → Carry float × List (Sample float)
  unfolding metrics_sample
  collect_metrics text name ts_ms carry batch =
      let exposition = parse float text in
      let completions = Prom.value float exposition (codes "muser_completion_tokens_total") none in
      let completed_this_tick = advanced carry.completion_tokens completions in
      (
        record carry { completion_tokens = or_keep completions carry.completion_tokens },
        batch
            ++ filter_map (metrics_sample exposition completed_this_tick name ts_ms)
                (with_source Source.metrics),
      )

  module _ (json : Json float) where
    abbrev pub walk : json.Value → List Text → Option json.Value
    walk current [] = some current
    walk current (segment ∷ segments) = json.get current segment >>= (λ next. walk next segments)

    unfoldable pub json_at : json.Value → Text → Option json.Value
    json_at root path = walk root (split path 46)

    abbrev pub take : ℕ → List Text → List Text
    take zero segments = []
    take (suc n) [] = []
    take (suc n) (s ∷ segments) = s ∷ take n segments

    -- the tag at the longest prefix of the path, of at most that many segments, where the sidecar has one
    unfoldable pub closest_tag : json.Value → List Text → ℕ → Option Text
    closest_tag sidecar segments zero = none
    closest_tag sidecar segments (suc n) =
        elim (walk sidecar (take (suc n) segments) >>= json.as_str) [
          | some tag ↦ some tag
          | none ↦ closest_tag sidecar segments n
        ]

    -- `segments.first().is_some_and(|first| first.starts_with('_'))`
    abbrev pub is_extension : List Text → Bool
    is_extension [] = false
    is_extension (first ∷ rest) = starts_with first (codes "_")

    abbrev pub untagged : List Text → Option Honesty
    untagged segments = if is_extension segments then some measured else none

    unfoldable pub honesty_for : json.Value → Text → Option Honesty
    unfolding closest_tag
    honesty_for document path =
        let segments = split path 46 in
        elim (json.get document (codes "_honesty")) [
          | none ↦ untagged segments
          | some sidecar ↦ elim (closest_tag sidecar segments (length segments)) [
            | some tag ↦ from_tag tag
            | none ↦ untagged segments
          ]
        ]

    abbrev pub transfers_of : json.Value → Option (List json.Value)
    transfers_of document = json.get document (codes "transfers") >>= json.as_array

    -- `entry.get("phase").and_then(|p| p.as_str()) != Some("done")`
    abbrev pub is_active : json.Value → Bool
    is_active entry = elim (json.get entry (codes "phase") >>= json.as_str) [
      | none ↦ true
      | some phase ↦ not (text_eq phase (codes "done"))
    ]

    unfoldable pub snapshot_value : json.Value → Extraction → Option float.F64
    unfolding json_at
    snapshot_value document (snapshot path) = json_at document path >>= json.as_f64
    snapshot_value document transfers_active =
        transfers_of document >>= (λ transfers. some (float.of_ℕ (count_if is_active transfers)))
    snapshot_value document (transfer_last field scale) = transfers_of document >>= (λ transfers.
        last transfers >>= (λ entry.
          json.get entry field
          >>= (λ v. json.as_f64 v >>= (λ x. some (float.mul x (float.literal scale))))))
    snapshot_value document (prometheus _ _) = none
    snapshot_value document (agent _ _) = none

    abbrev pub is_transfer_last : Extraction → Bool
    is_transfer_last (transfer_last _ _) = true
    is_transfer_last (prometheus _ _) = false
    is_transfer_last (snapshot _) = false
    is_transfer_last transfers_active = false
    is_transfer_last (agent _ _) = false

    -- one round of the loop in `collect_snapshot`
    unfoldable pub snapshot_sample : json.Value → Bool → Text → ℕ → Series → Option (Sample float)
    unfolding honesty_for snapshot_value
    snapshot_sample document receipt_is_new name ts_ms series = series.honesty_path >>= (λ path.
        if is_transfer_last series.extraction && not receipt_is_new
        then none
        else honesty_for document path >>= (λ honesty.
          finite (snapshot_value document series.extraction)
          >>= (λ value. some (sample name ts_ms series Source.snapshot honesty value))))

    abbrev pub receipt_of : json.Value → Option Text
    receipt_of document =
        transfers_of document
        >>= (λ transfers. last transfers >>= (λ entry. some (json.render entry)))

    -- `receipt.is_some() && receipt != carry.transfer_receipt`
    abbrev pub is_news : Option Text → Option Text → Bool
    is_news none old = false
    is_news (some new) none = true
    is_news (some new) (some old) = not (text_eq new old)

    unfoldable pub collect_snapshot :
        json.Value
        → Text
        → ℕ
        → Carry float
        → List (Sample float)
        → Carry float × List (Sample float)
    unfolding snapshot_sample
    collect_snapshot document name ts_ms carry batch =
        let receipt = receipt_of document in
        let receipt_is_new = is_news receipt carry.transfer_receipt in
        (
          record carry { transfer_receipt = or_keep receipt carry.transfer_receipt },
          batch
              ++ filter_map (snapshot_sample document receipt_is_new name ts_ms)
                  (with_source Source.snapshot),
        )

    abbrev pub dflash_configured : Option json.Value → Bool
    dflash_configured document =
        is_some (document >>= (λ value. json_at value (codes "specdec.draft_len")) >>= json.as_u64)

    unfoldable pub gate_optional_features :
        Option json.Value → List (Sample float) → List (Sample float)
    gate_optional_features document batch =
        if not (dflash_configured document)
        then retain (λ sample. not (starts_with sample.series (codes "dflash_"))) batch
        else batch
