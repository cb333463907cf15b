-- ===== src/Exporter/Mac/Parse.antt =====
-- The reading of powermetrics' text, agents/mac-exporter/src/parse.rs.
pub mod Laws
use muser_console.Base.{
  ℕ, Bool, true, false, not, ◌==◌, leb, ◌&&◌, ◌||◌, Text, codes, text_eq, split_once, trim, List,
  [], ◌∷◌, any, Option, none, some, is_some, ◌>>=◌, if◌then◌else◌,
}
use muser_console.Float.{Float}
use muser_console.History.Prom.{lines}

abbrev pub package_labels : List Text
package_labels =
    codes "Package Power"
    ∷ (codes "Combined Power (CPU + GPU + ANE)"
        ∷ (codes "Intel energy model derived package power (CPUs+GT+SA)" ∷ []))

abbrev pub cpu_labels : List Text
cpu_labels = codes "CPU Power" ∷ []

abbrev pub gpu_labels : List Text
gpu_labels = codes "GPU Power" ∷ []

-- `labels.contains(&label)`
abbrev pub listed : List Text → Text → Bool
listed labels label = any (λ l. text_eq l label) labels

abbrev pub numeric : ℕ → Bool
numeric c = (leb 48 c && leb c 57) || c == 46 || c == 45 || c == 43

-- `rest.split_at(split)` at the first character that is not numeric
abbrev pub split_number : Text → Text × Text
split_number [] = ([], [])
split_number (c ∷ s) = elim (numeric c) [
  | true ↦ let (number, unit) = split_number s in (c ∷ number, unit)
  | false ↦ ([], c ∷ s)
]

module _ (float : Float) where
  pub record PowerField : Type 0 where
    pub watts : float.F64
    pub source_label : Text

  pub record Reading : Type 0 where
    pub package_power : Option PowerField
    pub cpu : Option PowerField
    pub gpu : Option PowerField

  abbrev pub is_empty : Reading → Bool
  is_empty r = not (is_some r.package_power) && (not (is_some r.cpu) && not (is_some r.gpu))

  -- the watts by the printed unit
  abbrev pub in_watts : float.F64 → Text → Option float.F64
  in_watts value unit =
      if text_eq unit (codes "mW")
      then some (float.div value (float.literal (record { digits = 10000; exponent = 1 })))
      else if text_eq unit (codes "W")
      then some value
      else none

  -- the number and the unit behind the label
  abbrev pub power_of : Text → Option float.F64
  power_of rest = do
    let (number, unit) = split_number rest
    value ← float.parse number
    _ ← if float.is_finite value then some value else none
    in_watts value (trim unit)

  unfoldable pub parse_power_line : Text → Option (Text × float.F64)
  parse_power_line line = do
    (before, behind) ← split_once line b':'
    label ← if text_eq (trim before) [] then none else some (trim before)
    watts ← power_of (trim behind)
    some (label, watts)

  -- the body of the loop on a recognised line
  abbrev pub with_line : Reading → Text × float.F64 → Reading
  with_line r (label, watts) =
      let entry : PowerField = record { watts = watts; source_label = label } in
      if not (is_some r.package_power) && listed package_labels label
      then record r { package_power = some entry }
      else if not (is_some r.cpu) && listed cpu_labels label
      then record r { cpu = some entry }
      else if not (is_some r.gpu) && listed gpu_labels label
      then record r { gpu = some entry }
      else r

  -- the loop over the lines
  unfoldable pub read_lines : Reading → List Text → Reading
  unfolding parse_power_line
  read_lines r [] = r
  read_lines r (line ∷ rest) = elim (parse_power_line line) [
    | none ↦ read_lines r rest
    | some power ↦ read_lines (with_line r power) rest
  ]

  unfoldable pub parse_powermetrics : Text → Reading
  unfolding read_lines lines
  parse_powermetrics t =
      read_lines (record { package_power = none; cpu = none; gpu = none }) (lines t)
