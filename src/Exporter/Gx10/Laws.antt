-- ===== src/Exporter/Gx10/Laws.antt =====
-- The console's parser, crates/console-server/src/history/prom.rs, on the lines of devices that
-- agents/gx10-exporter/src/expo.rs writes.
use muser_console.Base.{
  ℕ, zero, suc, ◌+◌, ◌/◌, ◌%◌, Bool, true, false, ltb, leb, ◌&&◌, ◌==◌, Bool-cases, Option-cases,
  Text, codes, List, [], ◌∷◌, ◌++◌, append_assoc, append-nil, Option, none, some, ◌>>=◌, ◌≡◌, refl,
  ◌∙◌, sym, ap, subst, inl, inr, arith, All,
}
use muser_console.Float.{Float}
use muser_console.History.Prom.{Sample, filter_map, parse_line}
use muser_console.History.Prom.Labels.{valid_metric_name}
use muser_console.Exporter.Mac.{
  escaped, escape_label_value, label_text, write_labels, labels, sample_line,
}
use muser_console.Exporter.Mac.Labels.{Named}
use muser_console.Exporter.Mac.Reads.{is_number, parse_line-sample_line}
use muser_console.Exporter.Gx10.{
  decimal_with, decimal, driver_label, DeviceSample, device_labels, device_lines,
}

abbrev is_digit : ℕ → Bool
is_digit c = leb 48 c && leb c 57

last_digit : (n : ℕ) → is_digit (48 + n % 10) ≡ true
last_digit n = ground arith

escape-append :
    (s t : Text) → escape_label_value (s ++ t) ≡ (escape_label_value s ++ escape_label_value t)
unfolding escape_label_value
escape-append [] t = refl
escape-append (c ∷ s) t =
    ap (◌++◌ (escaped c)) (escape-append s t)
    ∙ sym (append_assoc (escaped c) (escape_label_value s) (escape_label_value t))

escape-digit : (d : ℕ) → is_digit d ≡ true → escape_label_value (d ∷ []) ≡ (d ∷ [])
unfolding escape_label_value
escape-digit d h =
    let backslash : ((d == 92) ≡ false) = ground (arith, h) in
    let quote : ((d == 34) ≡ false) = ground (arith, h) in
    let feed : ((d == 10) ≡ false) = ground (arith, h) in rw (backslash, quote, feed) refl

-- the digits of a number need no escapes
escape-decimal_with : (fuel n : ℕ) → escape_label_value (decimal_with fuel n) ≡ decimal_with fuel n
unfolding decimal_with
escape-decimal_with zero n = escape-digit (48 + n % 10) (last_digit n)
escape-decimal_with (suc fuel) n = elim (Bool-cases (ltb n 10)) [
  | inl e ↦ rw (decimal_with, e) (escape-digit (48 + n % 10) (last_digit n))
  | inr e ↦
      rw (decimal_with, e)
        (escape-append (decimal_with fuel (n / 10)) ((48 + n % 10) ∷ [])
          ∙ rw (escape-decimal_with fuel (n / 10), escape-digit (48 + n % 10) (last_digit n)) refl)
]

-- the label of a driver's text, if there is one
abbrev pub driver_pair : Text → Option Text → List (Text × Text)
driver_pair key none = []
driver_pair key (some value) = (key, value) ∷ []

driver_labels-write_labels :
    (u n : Option Text)
    → (driver_label (codes "uuid") u ++ driver_label (codes "name") n)
      ≡ write_labels 1 (driver_pair (codes "uuid") u ++ driver_pair (codes "name") n)
unfolding write_labels label_text
driver_labels-write_labels none none = refl
driver_labels-write_labels none (some n) =
    ap (◌∷◌ 44) (sym (append-nil (label_text (codes "name", n))))
driver_labels-write_labels (some u) none = refl
driver_labels-write_labels (some u) (some n) =
    ap (λ s. 44 ∷ (label_text (codes "uuid", u) ++ 44 ∷ s))
      (sym (append-nil (label_text (codes "name", n))))

module _ (float : Float) where
  -- what identifies a device: its index, and the uuid and the name that the driver gave
  abbrev pub identity : DeviceSample float → List (Text × Text)
  identity device =
      (codes "gpu", decimal device.index)
      ∷ (driver_pair (codes "uuid") device.uuid ++ driver_pair (codes "name") device.name)

  identity-Named : (device : DeviceSample float) → All Named (identity device)
  identity-Named device = go device.uuid device.name
    where
      go :
          (u n : Option Text)
          → All Named (
              (codes "gpu", decimal device.index)
              ∷ (driver_pair (codes "uuid") u ++ driver_pair (codes "name") n))
      go none none = (refl, tt)
      go none (some n) = (refl, (refl, tt))
      go (some u) none = (refl, (refl, tt))
      go (some u) (some n) = (refl, (refl, (refl, tt)))

  -- The labels are written as the other exporter writes its own.
  device_labels-write_labels :
      (device : DeviceSample float) → device_labels float device ≡ write_labels 0 (identity device)
  unfolding device_labels write_labels label_text
  device_labels-write_labels device =
      rw
        (
          escape-decimal_with device.index device.index,
          append_assoc (decimal device.index) (34 ∷ []) (
              write_labels 1
                (driver_pair (codes "uuid") device.uuid ++ driver_pair (codes "name") device.name)),
          driver_labels-write_labels device.uuid device.name,
        )
        refl

  pub device_line-sample_line :
      (metric value : Text) (device : DeviceSample float)
      → (metric ++ (123 ∷ (device_labels float device ++ (125 ∷ (32 ∷ value)))))
        ≡ sample_line metric (identity device) value
  unfolding sample_line labels
  device_line-sample_line metric value device =
      ap (λ s. metric ++ 123 ∷ s)
        (rw (device_labels-write_labels device) refl
          ∙ sym (append_assoc (write_labels 0 (identity device)) (125 ∷ []) (32 ∷ value)))

  -- a text that is printed is a number's, which the parser reads
  abbrev pub IsPrinted : Option Text → Type 0
  IsPrinted none = Unit
  IsPrinted (some text) = (is_number text ≡ true) × ((x : float.F64) × (float.parse text ≡ some x))

  -- what the console shall learn of a device: this metric, the device's identity, and the printed value
  abbrev pub told :
      Text → (DeviceSample float → Option Text) → DeviceSample float → Option (Sample float)
  told metric reading device = do
    text ← reading device
    value ← float.parse text
    some (record { metric = metric; labels = identity device; value = value })

  -- The console reads from a family's lines one sample for each device whose reading was printed, in the
  -- order of the devices: with the family's name, with the index and what the driver said of the device, even
  -- if that has quotes and line feeds, and with the value that the text stands for. The devices without a
  -- reading contribute nothing.
  pub device_lines-told :
      (metric : Text) (reading : DeviceSample float → Option Text)
      (devices : List (DeviceSample float))
      → valid_metric_name metric ≡ true
      → All (λ (d : DeviceSample float). IsPrinted (reading d)) devices
      → filter_map (parse_line float) (device_lines float metric reading devices)
        ≡ filter_map (told metric reading) devices
  unfolding device_lines
  device_lines-told metric reading [] valid printed = refl
  device_lines-told metric reading (d ∷ devices) valid (hd, hs) =
      let rest = device_lines-told metric reading devices valid hs in
      elim (Option-cases (reading d)) [
        | inl e ↦ rw (device_lines, filter_map, e) rest
        | inr (text, e) ↦
            let (number, (x, parsed)) = subst IsPrinted e hd in
            let line =
              parse_line-sample_line float metric text (identity d) x valid (identity-Named d)
                number parsed in
            rw (device_lines, filter_map, e, parsed, device_line-sample_line metric text d, line)
              (ap (◌∷◌ (record { metric = metric; labels = identity d; value = x })) rest)
      ]
