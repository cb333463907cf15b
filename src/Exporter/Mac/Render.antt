-- ===== src/Exporter/Mac/Render.antt =====
-- `render` of agents/mac-exporter/src/expo.rs. `show` is the printing of a float, `fixed` that with three
-- decimals, and `secs` is `Duration::as_secs_f64`.
pub mod Pieces
pub mod Laws
use muser_console.Base.{
  ℕ, Bool, true, false, Text, codes, List, [], ◌∷◌, ◌++◌, Option, none, some, if◌then◌else◌,
}
use muser_console.Float.{Float}
use muser_console.Exporter.Mac.{escape_label_value, sample_line}
use muser_console.Exporter.Mac.Parse.{PowerField}
use muser_console.Exporter.Mac.Scrape.{Scrape, Served}
use muser_console.Exporter.Gx10.{family}

-- a comment and its line feed
abbrev pub comment : Text → Text
comment s = 35 ∷ (32 ∷ s ++ 10 ∷ [])

-- HELP, TYPE and one sample
abbrev pub gauge : Text → Text → List (Text × Text) → Text → Text
gauge metric help pairs value =
    family metric help (codes "gauge") (sample_line metric pairs value ∷ [])

abbrev pub agent : List (Text × Text)
agent = (codes "agent", codes "mac") ∷ []

abbrev pub field_labels : Option Text → Text → List (Text × Text)
field_labels (some host) source = (codes "host", host) ∷ ((codes "source", source) ∷ [])
field_labels none source = (codes "source", source) ∷ []

module _ (float : Float) (show fixed : float.F64 → Text) (secs : ℕ → float.F64) where
  abbrev pub provenance_comment : Served float → ℕ → Text
  provenance_comment served max_age =
      let age = fixed (secs served.age) in
      let tail =
        codes " A reading is served for at most "
        ++ (fixed (secs max_age)
            ++ codes " s and then re-measured; an older one is never served.") in
      elim served.completed_unix_s [
        | some unix ↦ comment (
            codes "powermetrics sample completed at unix "
            ++ (fixed unix ++ (codes ", " ++ (age ++ (codes " s before this scrape." ++ tail)))))
        | none ↦ comment (
            codes "powermetrics sample completed "
            ++ (age ++ (codes " s before this scrape." ++ tail)))
      ]

  unfoldable pub render_field : Option Text → Text → Text → Option (PowerField float) → Text
  render_field host metric help none = []
  render_field host metric help (some entry) =
      comment (
        metric
        ++ (codes " is read from the powermetrics line \""
            ++ (escape_label_value entry.source_label ++ codes "\".")))
      ++ gauge metric help (field_labels host entry.source_label) (show entry.watts)

  -- what follows `muser_agent_up` where a reading was served
  unfoldable pub render_served : Served float → ℕ → Option Text → ℕ → Text
  unfolding render_field
  render_served served duration host max_age =
      gauge (codes "muser_agent_scrape_duration_seconds")
        (codes
          "Wall-clock seconds this scrape spent obtaining its reading; near zero when a reading taken moments ago was reused.")
        agent (show (secs duration))
      ++ (gauge (codes "muser_agent_sample_age_seconds")
            (codes
              "Age of the powermetrics sample this scrape served, at the moment it was served.")
            agent (show (secs served.age))
          ++ (provenance_comment served max_age
              ++ (render_field host (codes "muser_host_package_power_watts")
                    (codes "Combined package power for this host, as reported by powermetrics.")
                    served.reading.package_power
                  ++ (render_field host (codes "muser_host_cpu_power_watts")
                        (codes
                          "CPU power for this host, as reported by the powermetrics cpu_power sampler.")
                        served.reading.cpu
                      ++ render_field host (codes "muser_host_gpu_power_watts")
                          (codes
                            "GPU power for this host, as reported by the powermetrics gpu_power sampler.")
                          served.reading.gpu))))

  abbrev pub render_failure : Option Text → Text
  render_failure none = []
  render_failure (some reason) = comment (
      codes "no reading this scrape: "
      ++ (reason
          ++ codes
              "; the exporter's stderr log has the reason. No power series are published and no earlier reading is reused."))

  unfoldable pub render : Scrape float → Option Text → ℕ → Text
  unfolding render_served
  render scrape host max_age =
      gauge (codes "muser_agent_up")
        (codes
          "1 when this scrape served a real powermetrics reading, 0 when the exporter could not obtain one.")
        agent (if scrape.up then codes "1" else codes "0")
      ++ elim scrape.served [
        | some served ↦ render_served served scrape.duration host max_age
        | none ↦ render_failure scrape.failure
      ]
