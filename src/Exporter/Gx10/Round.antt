-- ===== src/Exporter/Gx10/Round.antt =====
-- The console's parser, crates/console-server/src/history/prom.rs, on the documents of
-- agents/gx10-exporter/src/expo.rs.
use mathlib.Core.Path.{ap₂}
use muser_console.Base.{
  ℕ, true, all, Bool-cases, Text, codes, List, [], ◌∷◌, ◌++◌, append-nil, Option, none, some, ◌>>=◌,
  ◌≡◌, refl, ◌∙◌, sym, ap, inl, inr, All,
}
use muser_console.Float.{Float}
use muser_console.History.Prom.{lines, parse_line, parse}
use muser_console.History.Prom.Labels.{valid_metric_name}
use muser_console.Exporter.Mac.{labels, sample_line}
use muser_console.Exporter.Mac.Reads.{is_number, parse_line-sample_line}
use muser_console.Exporter.Gx10.{
  decimal_with, decimal, family, agent_line, up_family, DeviceSample, device_lines, finite_text,
  integer_text, families, write_families, render,
}
use muser_console.Exporter.Gx10.Laws.{IsPrinted, told, device_lines-told}
use muser_console.Exporter.Gx10.Document.{feedless, read, read-family}
use muser_console.Exporter.Gx10.Lines.{sample_line-IsLine, device_lines-IsLine, metric-feedless}
use muser_console.Exporter.Gx10.Measured.{
  decimal-is_number, filter_map-agree, every, IsFamily, told_families, agent_sample, finite,
  device_sample, measured, measurements,
}

module _ (float : Float) where
  module _ (show : float.F64 → Text) where
    read-write_families :
        (fams : List (Text × Text × (DeviceSample float → Option Text)))
        (devices : List (DeviceSample float))
        → All (IsFamily float devices) fams
        → read float (write_families float show fams devices) ≡ told_families float fams devices
    unfolding write_families lines
    read-write_families [] devices h = refl
    read-write_families ((metric, help, reading) ∷ rest) devices ((valid, bare, printed), hs) =
        read-family float metric help (codes "gauge") (device_lines float metric reading devices)
          (write_families float show rest devices) (metric-feedless metric valid) bare refl
          (device_lines-IsLine float metric reading devices valid printed)
        ∙ ap₂ ◌++◌ (device_lines-told float metric reading devices valid printed)
            (read-write_families rest devices hs)

    read-agent :
        (metric help value : Text) (x : float.F64) (rest : Text)
        → valid_metric_name metric ≡ true
        → all feedless help ≡ true
        → is_number value ≡ true
        → float.parse value ≡ some x
        → read float (family metric help (codes "gauge") (agent_line metric value ∷ []) ++ rest)
          ≡ (agent_sample float metric x ∷ read float rest)
    unfolding sample_line labels
    read-agent metric help value x rest valid bare number parsed =
        let pairs : List (Text × Text) = (codes "agent", codes "gx10") ∷ [] in
        let shape : (agent_line metric value ≡ sample_line metric pairs value) = refl in
        let line : (parse_line float (agent_line metric value)
            ≡ some (agent_sample float metric x)) =
          parse_line-sample_line float metric value pairs x valid (refl, tt) number parsed in
        read-family float metric help (codes "gauge") (agent_line metric value ∷ []) rest
          (metric-feedless metric valid) bare refl
          (
            sample_line-IsLine metric value pairs (metric-feedless metric valid) (refl, tt) number,
            tt,
          )
        ∙ ap (λ o. elim o [ none ↦ [] | some b ↦ b ∷ [] ] ++ read float rest) line

    module _
        (prints : (x : float.F64)
          → float.is_finite x ≡ true
          → (is_number (show x) ≡ true) × (float.parse (show x) ≡ some x))
        (reads : (n : ℕ) → float.parse (decimal n) ≡ some (float.of_ℕ n)) where
      finite_text-IsPrinted : (o : Option float.F64) → IsPrinted float (finite_text float show o)
      finite_text-IsPrinted none = tt
      finite_text-IsPrinted (some x) = elim (Bool-cases (float.is_finite x)) [
        | inl e ↦ let (number, parsed) = prints x e in rw (e) (number, (x, parsed))
        | inr e ↦ rw (e) tt
      ]

      integer_text-IsPrinted : (o : Option ℕ) → IsPrinted float (integer_text float show o)
      integer_text-IsPrinted none = tt
      integer_text-IsPrinted (some n) = (decimal-is_number n n, (float.of_ℕ n, reads n))

      told-finite :
          (metric : Text) (field : DeviceSample float → Option float.F64) (d : DeviceSample float)
          → told float metric (λ d. finite_text float show (field d)) d
            ≡ measured float metric (λ d. finite float (field d)) d
      told-finite metric field d = go (field d)
        where
          go :
              (o : Option float.F64)
              → (finite_text float show o >>= (λ text.
                  float.parse text >>= (λ value. some (device_sample float metric d value))))
                ≡ (finite float o >>= (λ x. some (device_sample float metric d x)))
          go none = refl
          go (some x) = elim (Bool-cases (float.is_finite x)) [
            | inl e ↦ let (number, parsed) = prints x e in rw (e, parsed) refl
            | inr e ↦ rw (e) refl
          ]

      told-integer :
          (metric : Text) (field : DeviceSample float → Option ℕ) (d : DeviceSample float)
          → told float metric (λ d. integer_text float show (field d)) d
            ≡ measured float metric (λ d. field d >>= (λ n. some (float.of_ℕ n))) d
      told-integer metric field d = go (field d)
        where
          go :
              (o : Option ℕ)
              → (integer_text float show o >>= (λ text.
                  float.parse text >>= (λ value. some (device_sample float metric d value))))
                ≡ ((o >>= (λ n. some (float.of_ℕ n)))
                    >>= (λ x. some (device_sample float metric d x)))
          go none = refl
          go (some n) = let parsed = reads n in rw (parsed) refl

      told_families-measurements :
          (devices : List (DeviceSample float))
          → told_families float (families float show) devices ≡ measurements float devices
      told_families-measurements devices =
          ap₂ ◌++◌
            (filter_map-agree _ _ devices
              (told-finite (codes "muser_gpu_utilization_ratio") (λ d. d.utilization_ratio)))
            (ap₂ ◌++◌
              (filter_map-agree _ _ devices
                (told-finite (codes "muser_gpu_power_watts") (λ d. d.power_watts)))
              (ap₂ ◌++◌
                (filter_map-agree _ _ devices (
                  told-finite (codes "muser_gpu_temperature_celsius") (λ d. d.temperature_celsius)))
                (ap₂ ◌++◌
                  (filter_map-agree _ _ devices
                    (told-integer (codes "muser_gpu_memory_used_bytes") (λ d. d.memory_used_bytes)))
                  (ap₂ ◌++◌
                    (filter_map-agree _ _ devices (
                      told-integer (codes "muser_gpu_memory_total_bytes")
                        (λ d. d.memory_total_bytes)))
                    refl))))

      families-IsFamily :
          (devices : List (DeviceSample float)) → All (IsFamily float devices) (families float show)
      unfolding valid_metric_name
      families-IsFamily devices = (
        (refl, refl, every _ devices (λ d. finite_text-IsPrinted d.utilization_ratio)),
        (
          (refl, refl, every _ devices (λ d. finite_text-IsPrinted d.power_watts)),
          (
            (refl, refl, every _ devices (λ d. finite_text-IsPrinted d.temperature_celsius)),
            (
              (refl, refl, every _ devices (λ d. integer_text-IsPrinted d.memory_used_bytes)),
              (
                (refl, refl, every _ devices (λ d. integer_text-IsPrinted d.memory_total_bytes)),
                tt,
              ),
            ),
          ),
        ),
      )

      read-up :
          (value rest : Text) (n : ℕ)
          → is_number value ≡ true
          → decimal n ≡ value
          → read float (up_family value ++ rest)
            ≡ (agent_sample float (codes "muser_agent_up") (float.of_ℕ n) ∷ read float rest)
      unfolding valid_metric_name
      read-up value rest n number printed =
          read-agent (codes "muser_agent_up")
            (codes
              "1 when the gx10 agent's NVML source answered this scrape, 0 when it did not; when 0 the exposition carries no other series.")
            value (float.of_ℕ n) rest refl refl number (ap float.parse (sym printed) ∙ reads n)

      read-render_none :
          (elapsed : float.F64)
          → read float (render float show none elapsed)
            ≡ (agent_sample float (codes "muser_agent_up") (float.of_ℕ 0) ∷ [])
      unfolding render decimal_with lines
      read-render_none elapsed =
          ap (read float) (sym (append-nil (up_family (codes "0"))))
          ∙ read-up (codes "0") [] 0 refl refl

      read-render :
          (devices : List (DeviceSample float)) (elapsed : float.F64)
          → float.is_finite elapsed ≡ true
          → read float (render float show (some devices) elapsed) ≡ (
              agent_sample float (codes "muser_agent_up") (float.of_ℕ 1)
              ∷ (agent_sample float (codes "muser_agent_scrape_duration_seconds") elapsed
                  ∷ measurements float devices))
      unfolding render decimal_with valid_metric_name
      read-render devices elapsed finite_time =
          let (number, parsed) = prints elapsed finite_time in
          read-up (codes "1") _ 1 refl refl
          ∙ ap (◌∷◌ (agent_sample float (codes "muser_agent_up") (float.of_ℕ 1))) (
              read-agent (codes "muser_agent_scrape_duration_seconds")
                (codes "Wall-clock seconds this scrape spent reading NVML.") (show elapsed) elapsed
                (write_families float show (families float show) devices) refl refl number parsed
              ∙ ap (◌∷◌ (agent_sample float (codes "muser_agent_scrape_duration_seconds") elapsed))
                  (read-write_families (families float show) devices (families-IsFamily devices)
                    ∙ told_families-measurements devices))

  -- The console reads from the exporter's document what the exporter measured, and nothing else: that the
  -- agent is up, how long the scrape took, and metric by metric, for each device in order, the finite
  -- measurements with the device's index and the driver's strings as they were, whatever characters these
  -- have; of a scrape without an answer it reads that the agent is down. This holds where a finite number and
  -- an integer are printed as texts that parse back to them, and the scrape's seconds are finite.
  pub parse-render :
      (show : float.F64 → Text) (devices : Option (List (DeviceSample float))) (elapsed : float.F64)
      → ((x : float.F64)
          → float.is_finite x ≡ true
          → (is_number (show x) ≡ true) × (float.parse (show x) ≡ some x))
      → ((n : ℕ) → float.parse (decimal n) ≡ some (float.of_ℕ n))
      → float.is_finite elapsed ≡ true
      → (parse float (render float show devices elapsed)).samples ≡ elim devices [
        | none ↦ agent_sample float (codes "muser_agent_up") (float.of_ℕ 0) ∷ []
        | some ds ↦
            agent_sample float (codes "muser_agent_up") (float.of_ℕ 1)
            ∷ (agent_sample float (codes "muser_agent_scrape_duration_seconds") elapsed
                ∷ measurements float ds)
      ]
  unfolding parse
  parse-render show none elapsed prints reads finite_time =
      read-render_none show prints reads elapsed
  parse-render show (some ds) elapsed prints reads finite_time =
      read-render show prints reads ds elapsed finite_time
