-- ===== src/Exporter/Mac/Render/Pieces.antt =====
-- The console's parser, crates/console-server/src/history/prom.rs, on a gauge and on a comment of
-- agents/mac-exporter/src/expo.rs, and what it shall learn from a document.
use muser_console.Base.{
  ℕ, Bool, true, false, all, Text, codes, List, [], ◌∷◌, ◌++◌, append_assoc, Option, none, some,
  ◌≡◌, refl, ◌∙◌, ap, All, if◌then◌else◌,
}
use muser_console.Float.{Float}
use muser_console.History.Prom.{Sample}
use muser_console.History.Prom.Labels.{valid_metric_name}
use muser_console.Exporter.Mac.{sample_line}
use muser_console.Exporter.Mac.Labels.{Named}
use muser_console.Exporter.Mac.Reads.{is_number, all-append, parse_line-sample_line}
use muser_console.Exporter.Mac.Parse.{PowerField}
use muser_console.Exporter.Mac.Scrape.{Served}
use muser_console.Exporter.Mac.Render.{comment, gauge, agent, field_labels}
use muser_console.Exporter.Gx10.Document.{feedless, read, read-comment, read-family}
use muser_console.Exporter.Gx10.Lines.{IsOneLine, sample_line-IsLine, metric-feedless}

-- text after text without a line feed
pub joined :
    (s t : Text) → all feedless s ≡ true → all feedless t ≡ true → all feedless (s ++ t) ≡ true
joined = all-append feedless

module _ (float : Float) where
  abbrev pub sample : Text → List (Text × Text) → float.F64 → Sample float
  sample metric pairs x = record { metric = metric; labels = pairs; value = x }

  pub read-gauge :
      (metric help value : Text) (pairs : List (Text × Text)) (x : float.F64) (rest : Text)
      → valid_metric_name metric ≡ true
      → all feedless help ≡ true
      → All Named pairs
      → All IsOneLine pairs
      → is_number value ≡ true
      → float.parse value ≡ some x
      → read float (gauge metric help pairs value ++ rest)
        ≡ (sample metric pairs x ∷ read float rest)
  read-gauge metric help value pairs x rest valid bare named one number parsed =
      let line = parse_line-sample_line float metric value pairs x valid named number parsed in
      read-family float metric help (codes "gauge") (sample_line metric pairs value ∷ []) rest
        (metric-feedless metric valid) bare refl
        (sample_line-IsLine metric value pairs (metric-feedless metric valid) one number, tt)
      ∙ ap (λ o. elim o [ none ↦ [] | some b ↦ b ∷ [] ] ++ read float rest) line

  pub read-after_comment :
      (s rest : Text) → all feedless s ≡ true → read float (comment s ++ rest) ≡ read float rest
  read-after_comment s rest h =
      ap (λ t. read float (35 ∷ (32 ∷ t))) (append_assoc s (10 ∷ []) rest)
      ∙ read-comment float (32 ∷ s) rest h

  -- the sample of a power that the tool printed
  abbrev pub field_sample : Option Text → Text → Option (PowerField float) → List (Sample float)
  field_sample host metric none = []
  field_sample host metric (some entry) =
      sample metric (field_labels host entry.source_label) entry.watts ∷ []

  abbrev pub IsFinite : Option (PowerField float) → Type 0
  IsFinite none = Unit
  IsFinite (some entry) = float.is_finite entry.watts ≡ true

  -- the powers of what was served are finite
  abbrev pub IsMeasured : Option (Served float) → Type 0
  IsMeasured none = Unit
  IsMeasured (some served) =
      IsFinite served.reading.package_power
      × IsFinite served.reading.cpu
      × IsFinite served.reading.gpu

  -- what the console shall learn of a reading that was served
  abbrev pub served_samples : (ℕ → float.F64) → Served float → ℕ → Option Text → List (Sample float)
  served_samples secs served duration host =
      sample (codes "muser_agent_scrape_duration_seconds") agent (secs duration)
      ∷ (sample (codes "muser_agent_sample_age_seconds") agent (secs served.age)
          ∷ (field_sample host (codes "muser_host_package_power_watts") served.reading.package_power
              ++ (field_sample host (codes "muser_host_cpu_power_watts") served.reading.cpu
                  ++ (field_sample host (codes "muser_host_gpu_power_watts") served.reading.gpu
                      ++ []))))

  -- the reason, if any, has no line feed
  abbrev pub IsReason : Option Text → Type 0
  IsReason none = Unit
  IsReason (some reason) = all feedless reason ≡ true

  pub field_labels-Named :
      (host : Option Text) (source : Text) → All Named (field_labels host source)
  field_labels-Named none source = (refl, tt)
  field_labels-Named (some h) source = (refl, (refl, tt))

  pub field_labels-IsOneLine :
      (host : Option Text) (source : Text) → All IsOneLine (field_labels host source)
  field_labels-IsOneLine none source = (refl, tt)
  field_labels-IsOneLine (some h) source = (refl, (refl, tt))

  pub up_read :
      (up : Bool)
      → float.parse (codes "0") ≡ some (float.of_ℕ 0)
      → float.parse (codes "1") ≡ some (float.of_ℕ 1)
      → (is_number (if up then codes "1" else codes "0") ≡ true)
        × (float.parse (if up then codes "1" else codes "0")
            ≡ some (float.of_ℕ (if up then 1 else 0)))
  up_read true z o = (refl, o)
  up_read false z o = (refl, z)
