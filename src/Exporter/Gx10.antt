-- ===== src/Exporter/Gx10.antt =====
-- The exposition of agents/gx10-exporter/src/expo.rs, a text for the devices of one scrape. The printing of a
-- float is an argument; `the seconds of a duration come with the scrape.
pub mod Laws
pub mod Document
pub mod Lines
pub mod Measured
pub mod Round
use muser_console.Base.{
  ℕ, zero, suc, ◌+◌, ◌/◌, ◌%◌, Bool, true, false, ltb, Text, codes, List, [], ◌∷◌, ◌++◌, Option,
  none, some, ◌>>=◌, if◌then◌else◌,
}
use muser_console.Float.{Float}
use muser_console.History.Prom.{filter_map}
use muser_console.Exporter.Mac.{escape_label_value}

-- the decimal digits of a number, `to_string` of an unsigned integer: each round but the last divides by ten
unfoldable pub decimal_with : ℕ → ℕ → Text
decimal_with zero n = (48 + n % 10) ∷ []
decimal_with (suc fuel) n =
    let rest = decimal_with fuel (n / 10) in
    if ltb n 10 then (48 + n % 10) ∷ [] else rest ++ (48 + n % 10) ∷ []

abbrev pub decimal : ℕ → Text
decimal n = decimal_with n n

-- `#`, HELP or TYPE, the metric and what is said of it
abbrev pub header_line : Text → Text → Text → Text
header_line keyword name what = codes "# " ++ (keyword ++ (32 ∷ (name ++ (32 ∷ (what ++ 10 ∷ [])))))

abbrev pub ended_lines : List Text → Text
ended_lines [] = []
ended_lines (line ∷ rest) = line ++ 10 ∷ ended_lines rest

unfoldable pub family : Text → Text → Text → List Text → Text
family name help kind [] = []
family name help kind (line ∷ rest) =
    header_line (codes "HELP") name help
    ++ (header_line (codes "TYPE") name kind ++ ended_lines (line ∷ rest))

-- `{name}{agent="gx10"} value`
abbrev pub agent_line : Text → Text → Text
agent_line name value = name ++ (codes "{agent=\"gx10\"} " ++ value)

abbrev pub up_family : Text → Text
up_family value =
    family (codes "muser_agent_up")
      (codes
        "1 when the gx10 agent's NVML source answered this scrape, 0 when it did not; when 0 the exposition carries no other series.")
      (codes "gauge") (agent_line (codes "muser_agent_up") value ∷ [])

-- `,key="value"`, if the driver answered
abbrev pub driver_label : Text → Option Text → Text
driver_label key none = []
driver_label key (some value) = 44 ∷ (key ++ (codes "=\"" ++ (escape_label_value value ++ 34 ∷ [])))

module _ (float : Float) where
  pub record DeviceSample : Type 0 where
    pub index : ℕ
    pub uuid : Option Text
    pub name : Option Text
    pub utilization_ratio : Option float.F64
    pub power_watts : Option float.F64
    pub temperature_celsius : Option float.F64
    pub memory_used_bytes : Option ℕ
    pub memory_total_bytes : Option ℕ

  -- a device of which no probe has answered yet, `DeviceSample::new`
  abbrev pub new : ℕ → DeviceSample
  new index = record {
    index = index;
    uuid = none;
    name = none;
    utilization_ratio = none;
    power_watts = none;
    temperature_celsius = none;
    memory_used_bytes = none;
    memory_total_bytes = none;
  }

  unfoldable pub device_labels : DeviceSample → Text
  device_labels device =
      codes "gpu=\""
      ++ (decimal device.index
          ++ (34
              ∷ (driver_label (codes "uuid") device.uuid
                  ++ driver_label (codes "name") device.name)))

  -- `{name}{labels} {value}` of one device
  abbrev pub device_line : Text → (DeviceSample → Option Text) → DeviceSample → Option Text
  device_line metric reading device =
      reading device
      >>= (λ value. some (metric ++ (123 ∷ (device_labels device ++ (125 ∷ (32 ∷ value))))))

  unfoldable pub device_lines : Text → (DeviceSample → Option Text) → List DeviceSample → List Text
  unfolding device_labels
  device_lines metric reading devices = filter_map (device_line metric reading) devices

  module _ (show : float.F64 → Text) where
    -- `float`: a number that is not finite is dropped
    abbrev pub finite_text : Option float.F64 → Option Text
    finite_text none = none
    finite_text (some number) = if float.is_finite number then some (show number) else none

    abbrev pub integer_text : Option ℕ → Option Text
    integer_text value = value >>= (λ bytes. some (decimal bytes))

    -- the metric, its help and its reading, family by family
    abbrev pub families : List (Text × Text × (DeviceSample → Option Text))
    families =
        (
          codes "muser_gpu_utilization_ratio",
          codes
              "Fraction of the last sampling period the GPU was busy, 0..1. NVML reports whole percent via nvmlDeviceGetUtilizationRates; this exporter divides by 100 and does not clamp.",
          λ device. finite_text device.utilization_ratio,
        )
        ∷ ((
          codes "muser_gpu_power_watts",
          codes
              "Board power draw in watts. NVML reports milliwatts via nvmlDeviceGetPowerUsage; this exporter divides by 1000.",
          λ device. finite_text device.power_watts,
        )
            ∷ ((
              codes "muser_gpu_temperature_celsius",
              codes
                  "GPU die temperature in degrees Celsius, from nvmlDeviceGetTemperature with NVML_TEMPERATURE_GPU.",
              λ device. finite_text device.temperature_celsius,
            )
                ∷ ((
                  codes "muser_gpu_memory_used_bytes",
                  codes "Device memory in use, in bytes, from nvmlDeviceGetMemoryInfo.",
                  λ device. integer_text device.memory_used_bytes,
                )
                    ∷ ((
                      codes "muser_gpu_memory_total_bytes",
                      codes "Total device memory, in bytes, from nvmlDeviceGetMemoryInfo.",
                      λ device. integer_text device.memory_total_bytes,
                    )
                        ∷ []))))

    -- the loop over the families
    unfoldable pub write_families :
        List (Text × Text × (DeviceSample → Option Text)) → List DeviceSample → Text
    unfolding family device_lines
    write_families [] devices = []
    write_families ((metric, help, reading) ∷ rest) devices =
        family metric help (codes "gauge") (device_lines metric reading devices)
        ++ write_families rest devices

    -- The document, with the seconds that the scrape took; `none` is a source that did not answer.
    unfoldable pub render : Option (List DeviceSample) → float.F64 → Text
    unfolding write_families
    render none elapsed = up_family (codes "0")
    render (some devices) elapsed =
        up_family (codes "1")
        ++ (family (codes "muser_agent_scrape_duration_seconds")
              (codes "Wall-clock seconds this scrape spent reading NVML.") (codes "gauge")
              (agent_line (codes "muser_agent_scrape_duration_seconds") (show elapsed) ∷ [])
            ++ write_families families devices)
