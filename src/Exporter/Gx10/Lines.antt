-- ===== src/Exporter/Gx10/Lines.antt =====
-- The lines of devices in agents/gx10-exporter/src/expo.rs are each one line of the document.
use muser_console.Base.{
  ℕ, zero, suc, true, false, ◌==◌, all, Bool-cases, Option-cases, and_split, and_join, Text, codes,
  List, [], ◌∷◌, ◌++◌, append_assoc, Option, none, some, ◌≡◌, refl, ◌∙◌, ap, subst, inl, inr, arith,
  All,
}
use muser_console.Float.{Float}
use muser_console.History.Prom.{filter_map, drop_return}
use muser_console.History.Prom.Labels.{is_metric_char, valid_metric_name}
use muser_console.Exporter.Mac.{
  escaped, escape_label_value, label_text, write_labels, labels, comma, sample_line,
}
use muser_console.Exporter.Mac.Reads.{
  metric_chars, is_number, is_number_char, all-append, all_weaken, number_chars,
}
use muser_console.Exporter.Gx10.{decimal, DeviceSample, device_lines}
use muser_console.Exporter.Gx10.Laws.{driver_pair, identity, device_line-sample_line, IsPrinted}
use muser_console.Exporter.Gx10.Document.{feedless, IsLine}

drop_return-number : (s : Text) → all is_number_char s ≡ true → drop_return s ≡ s
drop_return-number [] h = refl
drop_return-number (c ∷ []) h =
    let stays : ((c == 13) ≡ false) = ground (arith, h) in rw (stays) refl
drop_return-number (c ∷ (d ∷ s)) h =
    let (hc, hs) = and_split (is_number_char c) (all is_number_char (d ∷ s)) h in
    ap (◌∷◌ c) (drop_return-number (d ∷ s) hs)

drop_return-append : (a b : Text) (d : ℕ) → drop_return (a ++ d ∷ b) ≡ (a ++ drop_return (d ∷ b))
drop_return-append [] b d = refl
drop_return-append (c ∷ []) b d = refl
drop_return-append (c ∷ (e ∷ a)) b d = ap (◌∷◌ c) (drop_return-append (e ∷ a) b d)

number-feedless : (s : Text) → all is_number_char s ≡ true → all feedless s ≡ true
number-feedless s = all_weaken is_number_char feedless s (λ c h. ground (arith, h))

escaped-feedless : (c : ℕ) → all feedless (escaped c) ≡ true
escaped-feedless c = elim (Bool-cases (c == 92)) [
  | inl e ↦ rw (e) refl
  | inr e ↦ elim (Bool-cases (c == 34)) [
    | inl f ↦ rw (e, f) refl
    | inr f ↦ elim (Bool-cases (c == 10)) [
      | inl g ↦ rw (e, f, g) refl
      | inr g ↦ rw (e, f, g) (and_join (feedless c) true (ground (arith, g)) refl)
    ]
  ]
]

pub escape_feedless : (s : Text) → all feedless (escape_label_value s) ≡ true
unfolding escape_label_value
escape_feedless [] = refl
escape_feedless (c ∷ s) =
    all-append feedless (escaped c) (escape_label_value s) (escaped-feedless c) (escape_feedless s)

-- the name of a label has no line feed
abbrev pub IsOneLine : Text × Text → Type 0
IsOneLine (name, value) = all feedless name ≡ true

label_feedless : (pair : Text × Text) → IsOneLine pair → all feedless (label_text pair) ≡ true
unfolding label_text
label_feedless (name, value) h =
    all-append feedless name (61 ∷ (34 ∷ (escape_label_value value ++ 34 ∷ []))) h
      (all-append feedless (escape_label_value value) (34 ∷ []) (escape_feedless value) refl)

comma-feedless : (index : ℕ) → all feedless (comma index) ≡ true
comma-feedless zero = refl
comma-feedless (suc index) = refl

write_labels-feedless :
    (index : ℕ) (pairs : List (Text × Text))
    → All IsOneLine pairs
    → all feedless (write_labels index pairs) ≡ true
unfolding write_labels
write_labels-feedless index [] h = refl
write_labels-feedless index (pair ∷ pairs) (hp, h) =
    all-append feedless (comma index) (label_text pair ++ write_labels (suc index) pairs)
      (comma-feedless index)
      (all-append feedless (label_text pair) (write_labels (suc index) pairs)
        (label_feedless pair hp) (write_labels-feedless (suc index) pairs h))

labels-feedless :
    (pairs : List (Text × Text)) → All IsOneLine pairs → all feedless (labels pairs) ≡ true
unfolding labels
labels-feedless [] h = refl
labels-feedless (pair ∷ pairs) h =
    all-append feedless (write_labels 0 (pair ∷ pairs)) (125 ∷ [])
      (write_labels-feedless 0 (pair ∷ pairs) h) refl

-- A sample's line is one line of the document, whatever the values of its labels are.
pub sample_line-IsLine :
    (metric value : Text) (pairs : List (Text × Text))
    → all feedless metric ≡ true
    → All IsOneLine pairs
    → is_number value ≡ true
    → IsLine (sample_line metric pairs value)
unfolding sample_line
sample_line-IsLine metric [] pairs hm hp hv = cc
sample_line-IsLine metric (d ∷ s) pairs hm hp hv =
    let number = number_chars (d ∷ s) hv in
    let front = metric ++ (labels pairs ++ 32 ∷ []) in
    let shape : ((front ++ (d ∷ s)) ≡ (metric ++ (labels pairs ++ 32 ∷ (d ∷ s)))) =
      append_assoc metric (labels pairs ++ 32 ∷ []) (d ∷ s)
      ∙ ap (◌++◌ metric) (append_assoc (labels pairs) (32 ∷ []) (d ∷ s)) in
    (
      all-append feedless metric (labels pairs ++ 32 ∷ (d ∷ s)) hm (
          all-append feedless (labels pairs) (32 ∷ (d ∷ s)) (labels-feedless pairs hp)
            (number-feedless (d ∷ s) number)),
      subst (λ w. drop_return w ≡ w) shape
          (drop_return-append front s d ∙ ap (◌++◌ front) (drop_return-number (d ∷ s) number)),
    )

pub metric-feedless : (metric : Text) → valid_metric_name metric ≡ true → all feedless metric ≡ true
metric-feedless metric valid =
    all_weaken is_metric_char feedless metric (λ c h. ground (arith, h)) (metric_chars metric valid)

module _ (float : Float) where
  identity-IsOneLine : (device : DeviceSample float) → All IsOneLine (identity float device)
  identity-IsOneLine device = go device.uuid device.name
    where
      go :
          (u n : Option Text)
          → All IsOneLine (
              (codes "gpu", decimal device.index)
              ∷ (driver_pair (codes "uuid") u ++ driver_pair (codes "name") n))
      go none none = (refl, tt)
      go none (some n) = (refl, (refl, tt))
      go (some u) none = (refl, (refl, tt))
      go (some u) (some n) = (refl, (refl, (refl, tt)))

  -- The lines of a family of devices are lines of the document.
  pub device_lines-IsLine :
      (metric : Text) (reading : DeviceSample float → Option Text)
      (devices : List (DeviceSample float))
      → valid_metric_name metric ≡ true
      → All (λ (d : DeviceSample float). IsPrinted float (reading d)) devices
      → All IsLine (device_lines float metric reading devices)
  unfolding device_lines
  device_lines-IsLine metric reading [] valid printed = tt
  device_lines-IsLine metric reading (d ∷ devices) valid (hd, hs) =
      let rest = device_lines-IsLine metric reading devices valid hs in
      elim (Option-cases (reading d)) [
        | inl e ↦ rw (device_lines, filter_map, e) rest
        | inr (text, e) ↦
            let (number, (x, parsed)) = subst (IsPrinted float) e hd in
            let line =
              sample_line-IsLine metric text (identity float d) (metric-feedless metric valid)
                (identity-IsOneLine d) number in
            rw (device_lines, filter_map, e, device_line-sample_line float metric text d)
              (line, rest)
      ]
