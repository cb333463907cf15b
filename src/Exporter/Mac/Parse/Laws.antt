-- ===== src/Exporter/Mac/Parse/Laws.antt =====
-- Which line of powermetrics' text each power is read from, in agents/mac-exporter/src/parse.rs.
use muser_console.Base.{
  Bool, true, false, not, ◌&&◌, Text, codes, text_eq_iff, List, [], ◌∷◌, find, Option, none, some,
  is_some, Bool-cases, Option-cases, ◌≡◌, refl, sym, subst, ◌∙◌, inl, inr, arith, if◌then◌else◌,
  ◌>>=◌,
}
use muser_console.Float.{Float}
use muser_console.History.Prom.{lines, filter_map}
use muser_console.Exporter.Mac.Parse.{
  package_labels, cpu_labels, gpu_labels, listed, PowerField, Reading, parse_power_line, with_line,
  read_lines, parse_powermetrics,
}

module _ (float : Float) where
  abbrev pub Power : Type 0
  Power = Text × float.F64

  -- the entry of a recognised line
  abbrev pub entry_of : Power → PowerField float
  entry_of (label, watts) = record { watts = watts; source_label = label }

  -- The first recognised line with one of these labels.
  abbrev pub first_of : List Text → List Power → Option (PowerField float)
  first_of labels powers = find (λ (p : Power). listed labels p.0) powers >>= λ p. some (entry_of p)

  -- what was there, or else the other
  abbrev pub or_else :
      Option (PowerField float) → Option (PowerField float) → Option (PowerField float)
  or_else none o = o
  or_else (some f) o = some f

  or_else-none : (o : Option (PowerField float)) → or_else o none ≡ o
  or_else-none none = refl
  or_else-none (some f) = refl

  or_else_assoc :
      (a b c : Option (PowerField float)) → or_else (or_else a b) c ≡ or_else a (or_else b c)
  or_else_assoc none b c = refl
  or_else_assoc (some f) b c = refl

  -- the entry of a line, if its label is one of these
  abbrev pub entry_if : List Text → Power → Option (PowerField float)
  entry_if labels p = if listed labels p.0 then some (entry_of p) else none

  first_of-cons :
      (labels : List Text) (p : Power) (powers : List Power)
      → first_of labels (p ∷ powers) ≡ or_else (entry_if labels p) (first_of labels powers)
  first_of-cons labels p powers = elim (Bool-cases (listed labels p.0)) [
    | inl e ↦ rw (find, e) refl
    | inr e ↦ rw (find, e) refl
  ]

only : (t label : Text) → listed (t ∷ []) label ≡ true → t ≡ label
only t label h = (text_eq_iff t label).0 (ground (arith, h))

-- no label is on two lists
cpu_apart : (label : Text) → listed cpu_labels label ≡ true → listed package_labels label ≡ false
cpu_apart label h =
    subst (λ l. listed package_labels l ≡ false) (only (codes "CPU Power") label h) refl

gpu_apart :
    (label : Text)
    → listed gpu_labels label ≡ true
    → (listed package_labels label ≡ false) × (listed cpu_labels label ≡ false)
gpu_apart label h =
    subst (λ l. (listed package_labels l ≡ false) × (listed cpu_labels l ≡ false))
      (only (codes "GPU Power") label h) (refl, refl)

package_only :
    (label : Text)
    → listed package_labels label ≡ true
    → (listed cpu_labels label ≡ false) × (listed gpu_labels label ≡ false)
package_only label h = (
  elim (Bool-cases (listed cpu_labels label)) [
    | inl e ↦ cc (sym h ∙ cpu_apart label e)
    | inr e ↦ e
  ],
  elim (Bool-cases (listed gpu_labels label)) [
    | inl e ↦ cc (sym h ∙ (gpu_apart label e).0)
    | inr e ↦ e
  ],
)

cpu_only : (label : Text) → listed cpu_labels label ≡ true → listed gpu_labels label ≡ false
cpu_only label h = elim (Bool-cases (listed gpu_labels label)) [
  | inl e ↦ cc (sym h ∙ (gpu_apart label e).1)
  | inr e ↦ e
]

and_false : (b : Bool) → (b && false) ≡ false
and_false true = refl
and_false false = refl

module _ (float : Float) where
  with_line-entries :
      (r : Reading float) (p : Power float)
      → with_line float r p ≡ record {
        package_power = or_else float r.package_power (entry_if float package_labels p);
        cpu = or_else float r.cpu (entry_if float cpu_labels p);
        gpu = or_else float r.gpu (entry_if float gpu_labels p);
      }
  with_line-entries r (label, watts) =
      go r.package_power r.cpu r.gpu (listed package_labels label) (listed cpu_labels label)
        (listed gpu_labels label) refl refl refl
    where
      go :
          (a b c : Option (PowerField float)) (x y z : Bool)
          → listed package_labels label ≡ x
          → listed cpu_labels label ≡ y
          → listed gpu_labels label ≡ z
          → with_line float (record { package_power = a; cpu = b; gpu = c }) (label, watts)
            ≡ record {
              package_power = or_else float a (entry_if float package_labels (label, watts));
              cpu = or_else float b (entry_if float cpu_labels (label, watts));
              gpu = or_else float c (entry_if float gpu_labels (label, watts));
            }
      go none b c true y z ex ey ez =
          let (py, pz) = package_only label ex in
          rw (with_line, ex, py, pz, or_else-none float b, or_else-none float c) refl
      go (some a) b c true y z ex ey ez =
          let (py, pz) = package_only label ex in
          rw
            (
              with_line,
              py,
              pz,
              and_false (not (is_some b)),
              and_false (not (is_some c)),
              or_else-none float b,
              or_else-none float c,
            )
            refl
      go a none c false true z ex ey ez =
          let pz = cpu_only label ey in
          rw
            (
              with_line,
              ex,
              ey,
              pz,
              and_false (not (is_some a)),
              or_else-none float a,
              or_else-none float c,
            )
            refl
      go a (some b) c false true z ex ey ez =
          let pz = cpu_only label ey in
          rw
            (
              with_line,
              ex,
              pz,
              and_false (not (is_some a)),
              and_false (not (is_some c)),
              or_else-none float a,
              or_else-none float c,
            )
            refl
      go a b none false false true ex ey ez =
          rw
            (
              with_line,
              ex,
              ey,
              ez,
              and_false (not (is_some a)),
              and_false (not (is_some b)),
              or_else-none float a,
              or_else-none float b,
            )
            refl
      go a b (some c) false false true ex ey ez =
          rw
            (
              with_line,
              ex,
              ey,
              and_false (not (is_some a)),
              and_false (not (is_some b)),
              or_else-none float a,
              or_else-none float b,
            )
            refl
      go a b c false false false ex ey ez =
          rw
            (
              with_line,
              ex,
              ey,
              ez,
              and_false (not (is_some a)),
              and_false (not (is_some b)),
              and_false (not (is_some c)),
              or_else-none float a,
              or_else-none float b,
              or_else-none float c,
            )
            refl

  -- what the loop adds to a reading
  abbrev pub joined : Reading float → List (Power float) → Reading float
  joined r powers = record {
    package_power = or_else float r.package_power (first_of float package_labels powers);
    cpu = or_else float r.cpu (first_of float cpu_labels powers);
    gpu = or_else float r.gpu (first_of float gpu_labels powers);
  }

  joined-cons :
      (r : Reading float) (p : Power float) (powers : List (Power float))
      → joined (with_line float r p) powers ≡ joined r (p ∷ powers)
  joined-cons r p powers =
      rw
        (
          with_line-entries r p,
          first_of-cons float package_labels p powers,
          first_of-cons float cpu_labels p powers,
          first_of-cons float gpu_labels p powers,
          or_else_assoc float r.package_power (entry_if float package_labels p)
              (first_of float package_labels powers),
          or_else_assoc float r.cpu (entry_if float cpu_labels p)
              (first_of float cpu_labels powers),
          or_else_assoc float r.gpu (entry_if float gpu_labels p)
              (first_of float gpu_labels powers),
        )
        refl

  read_lines-joined :
      (r : Reading float) (ls : List Text)
      → read_lines float r ls ≡ joined r (filter_map (parse_power_line float) ls)
  unfolding read_lines
  read_lines-joined r [] =
      rw (or_else-none float r.package_power, or_else-none float r.cpu, or_else-none float r.gpu)
        refl
  read_lines-joined r (line ∷ ls) = elim (Option-cases (parse_power_line float line)) [
    | inl e ↦ rw (read_lines, filter_map, e) (read_lines-joined r ls)
    | inr (p, e) ↦
        rw (read_lines, filter_map, e)
          (read_lines-joined (with_line float r p) ls
            ∙ joined-cons r p (filter_map (parse_power_line float) ls))
  ]

  -- Each power is that of the first line that the tool printed for it: of all lines that are read as a power,
  -- the first whose label is one of the package's, the first for the CPU and the first for the GPU, with that
  -- label and in watts; what was not printed is missing, and nothing is combined.
  pub parse_powermetrics-first :
      (t : Text)
      → let powers = filter_map (parse_power_line float) (lines t) in
        let reading = parse_powermetrics float t in
        (reading.package_power ≡ first_of float package_labels powers)
        × (reading.cpu ≡ first_of float cpu_labels powers)
        × (reading.gpu ≡ first_of float gpu_labels powers)
  unfolding parse_powermetrics
  parse_powermetrics-first t =
      rw
        (
          parse_powermetrics,
          read_lines-joined (record { package_power = none; cpu = none; gpu = none }) (lines t),
        )
        (refl, refl, refl)
