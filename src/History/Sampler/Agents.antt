-- ===== src/History/Sampler/Agents.antt =====
-- `collect_agent` of crates/console-server/src/history/sampler.rs: one exporter's document.
pub mod Laws
use muser_console.Base.{
  ℕ, suc, Bool, true, false, not, ◌&&◌, Text, codes, text_eq, starts_with, any, List, [], ◌∷◌, ◌++◌,
  length, Option, none, some, ◌>>=◌, if◌then◌else◌,
}
use muser_console.Float.{Float}
use muser_console.Catalog.Source.{Source}
use muser_console.Catalog.Source
use muser_console.Catalog.Honesty.{agent_measured}
use muser_console.Catalog.Series.{
  Series, Extraction, prometheus, snapshot, transfers_active, transfer_last, agent,
}
use muser_console.Catalog.Lookup.{with_source}
use muser_console.History.Table.{Sample}
use muser_console.History.Prom.{filter_map, parse, label}
use muser_console.History.Prom
use muser_console.History.Sampler.Engine.{finite, sample}

module _ (float : Float) where
  -- `gpus` after one sample of the document
  abbrev pub note_gpu : List Text → Prom.Sample float → List Text
  note_gpu gpus s =
      if not (starts_with s.metric (codes "muser_gpu_"))
      then gpus
      else elim (label float (codes "gpu") s) [
        | none ↦ gpus
        | some index ↦ if any (λ g. text_eq g index) gpus then gpus else gpus ++ index ∷ []
      ]

  unfoldable pub distinct_gpus : List Text → List (Prom.Sample float) → List Text
  distinct_gpus gpus [] = gpus
  distinct_gpus gpus (s ∷ samples) = distinct_gpus (note_gpu gpus s) samples

  abbrev pub zero_value : float.F64
  zero_value = float.literal (record { digits = 0; exponent = 0 })

  -- `exposition.value("muser_agent_up", None) == Some(0.0)`
  abbrev pub is_down : Prom.Exposition float → Bool
  is_down exposition = elim (Prom.value float exposition (codes "muser_agent_up") none) [
    | none ↦ false
    | some value ↦ float.eq value zero_value
  ]

  abbrev pub agent_value : Prom.Exposition float → Text → Option Text → Option float.F64
  agent_value exposition metric (some index) =
      Prom.labeled_value float exposition metric (codes "gpu") index
  agent_value exposition metric none = Prom.value float exposition metric none

  -- the value that one round of the loop stores, if it stores one
  unfoldable pub agent_reading : Prom.Exposition float → Extraction → Option float.F64
  agent_reading exposition (agent metric gpu) = finite float (agent_value exposition metric gpu)
  agent_reading exposition (prometheus _ _) = none
  agent_reading exposition (snapshot _) = none
  agent_reading exposition transfers_active = none
  agent_reading exposition (transfer_last _ _) = none

  unfoldable pub agent_sample : Prom.Exposition float → Text → ℕ → Series → Option (Sample float)
  unfolding agent_reading
  agent_sample exposition name ts_ms series =
      agent_reading exposition series.extraction
      >>= (λ value. some (sample float name ts_ms series Source.agent agent_measured value))

  -- the devices seen, and the batch
  unfoldable pub collect_agent : Text → Text → ℕ → List (Sample float) → ℕ × List (Sample float)
  unfolding distinct_gpus agent_sample
  collect_agent text name ts_ms batch =
      let exposition = parse float text in
      let gpus_seen = length (distinct_gpus [] exposition.samples) in
      if is_down exposition then (gpus_seen, batch) else (
        gpus_seen,
        batch ++ filter_map (agent_sample exposition name ts_ms) (with_source Source.agent),
      )
