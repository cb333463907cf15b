-- ===== src/Exporter/Gx10/Measured.antt =====
-- What agents/gx10-exporter/src/expo.rs has to tell of its devices, and its numbers in decimal.
use muser_console.Base.{
  ℕ, zero, suc, ◌+◌, ◌/◌, ◌%◌, true, ltb, all, Bool-cases, Text, codes, List, [], ◌∷◌, ◌++◌, Option,
  none, some, ◌>>=◌, ◌≡◌, refl, ap, inl, inr, arith, All, if◌then◌else◌,
}
use muser_console.Float.{Float}
use muser_console.History.Prom.{Sample, filter_map}
use muser_console.History.Prom.Labels.{valid_metric_name}
use muser_console.Exporter.Mac.Reads.{is_number, is_number_char, all-append, number_chars}
use muser_console.Exporter.Gx10.{decimal_with, DeviceSample}
use muser_console.Exporter.Gx10.Laws.{identity, IsPrinted, told}
use muser_console.Exporter.Gx10.Document.{feedless}

last_is_number : (n : ℕ) → is_number ((48 + n % 10) ∷ []) ≡ true
last_is_number n = ground arith

is_number-append :
    (s t : Text) → is_number s ≡ true → is_number t ≡ true → is_number (s ++ t) ≡ true
is_number-append [] t hs ht = ht
is_number-append (c ∷ s) t hs ht = all-append is_number_char (c ∷ s) t hs (number_chars t ht)

pub decimal-is_number : (fuel n : ℕ) → is_number (decimal_with fuel n) ≡ true
unfolding decimal_with
decimal-is_number zero n = last_is_number n
decimal-is_number (suc fuel) n = elim (Bool-cases (ltb n 10)) [
  | inl e ↦ rw (decimal_with, e) (last_is_number n)
  | inr e ↦
      rw (decimal_with, e)
        (is_number-append (decimal_with fuel (n / 10)) ((48 + n % 10) ∷ [])
          (decimal-is_number fuel (n / 10)) (last_is_number n))
]

pub filter_map-agree :
    {A B : Type 0} (f g : A → Option B) (l : List A)
    → ((a : A) → f a ≡ g a)
    → filter_map f l ≡ filter_map g l
filter_map-agree f g [] h = refl
filter_map-agree f g (a ∷ l) h =
    rw (filter_map, h a)
      (ap (λ r. elim (g a) [ none ↦ r | some b ↦ b ∷ r ]) (filter_map-agree f g l h))

pub every : {A : Type 0} (P : A → Type 0) (l : List A) → ((a : A) → P a) → All P l
every P [] h = tt
every P (a ∷ l) h = (h a, every P l h)

module _ (float : Float) where
  -- a family's metric and help have no line feed, and what it prints is read as numbers
  abbrev pub IsFamily :
      List (DeviceSample float) → Text × Text × (DeviceSample float → Option Text) → Type 0
  IsFamily devices (metric, help, reading) =
      (valid_metric_name metric ≡ true)
      × (all feedless help ≡ true)
      × All (λ (d : DeviceSample float). IsPrinted float (reading d)) devices

  abbrev pub told_families :
      List (Text × Text × (DeviceSample float → Option Text))
      → List (DeviceSample float)
      → List (Sample float)
  told_families [] devices = []
  told_families ((metric, help, reading) ∷ rest) devices =
      filter_map (told float metric reading) devices ++ told_families rest devices

  -- a sample of the agent itself
  abbrev pub agent_sample : Text → float.F64 → Sample float
  agent_sample metric x = record {
    metric = metric;
    labels = (codes "agent", codes "gx10") ∷ [];
    value = x;
  }

  -- a finite measurement
  abbrev pub finite : Option float.F64 → Option float.F64
  finite none = none
  finite (some x) = if float.is_finite x then some x else none

  abbrev pub device_sample : Text → DeviceSample float → float.F64 → Sample float
  device_sample metric d x = record { metric = metric; labels = identity float d; value = x }

  -- the sample of a device that has this measurement
  abbrev pub measured :
      Text → (DeviceSample float → Option float.F64) → DeviceSample float → Option (Sample float)
  measured metric value d = value d >>= (λ x. some (device_sample metric d x))

  -- all that the devices have measured: metric by metric, each in the order of the devices
  abbrev pub measurements : List (DeviceSample float) → List (Sample float)
  measurements devices =
      filter_map (measured (codes "muser_gpu_utilization_ratio") (λ d. finite d.utilization_ratio))
        devices
      ++ (filter_map (measured (codes "muser_gpu_power_watts") (λ d. finite d.power_watts)) devices
          ++ (filter_map
                (measured (codes "muser_gpu_temperature_celsius")
                  (λ d. finite d.temperature_celsius))
                devices
              ++ (filter_map
                    (measured (codes "muser_gpu_memory_used_bytes")
                      (λ d. d.memory_used_bytes >>= (λ n. some (float.of_ℕ n))))
                    devices
                  ++ (filter_map
                        (measured (codes "muser_gpu_memory_total_bytes")
                          (λ d. d.memory_total_bytes >>= (λ n. some (float.of_ℕ n))))
                        devices
                      ++ []))))
