-- ===== src/Exporter/Mac.antt =====
-- The lines of agents/mac-exporter/src/expo.rs: `escape_label_value` (in agents/gx10-exporter/src/expo.rs
-- the same function is called `escape`), `labels`, and a sample's line as `render` and `render_field`
-- format it.
pub mod Labels
pub mod Reads
pub mod Parse
pub mod Scrape
pub mod Render
use muser_console.Base.{
  ℕ, zero, suc, Bool, true, false, ◌==◌, Text, codes, List, [], ◌∷◌, ◌++◌, if◌then◌else◌,
}

abbrev pub escaped : ℕ → Text
escaped c =
    if c == 92
    then 92 ∷ (92 ∷ [])
    else if c == 34
    then 92 ∷ (34 ∷ [])
    else if c == 10
    then 92 ∷ (110 ∷ [])
    else c ∷ []

unfoldable pub escape_label_value : Text → Text
escape_label_value [] = []
escape_label_value (c ∷ value) = escaped c ++ escape_label_value value

-- `name="value"`
unfoldable pub label_text : Text × Text → Text
unfolding escape_label_value
label_text (name, value) = name ++ (61 ∷ (34 ∷ (escape_label_value value ++ 34 ∷ [])))

-- `if index > 0 { out.push(',') }`
abbrev pub comma : ℕ → Text
comma zero = []
comma (suc index) = 44 ∷ []

-- the loop over the pairs, from that index on
unfoldable pub write_labels : ℕ → List (Text × Text) → Text
unfolding label_text
write_labels index [] = []
write_labels index (pair ∷ pairs) =
    comma index ++ (label_text pair ++ write_labels (suc index) pairs)

unfoldable pub labels : List (Text × Text) → Text
unfolding write_labels
labels [] = []
labels (pair ∷ pairs) = 123 ∷ (write_labels 0 (pair ∷ pairs) ++ 125 ∷ [])

-- `"{metric}{labels} {}"`, the value already formatted
unfoldable pub sample_line : Text → List (Text × Text) → Text → Text
unfolding labels
sample_line metric pairs value = metric ++ (labels pairs ++ 32 ∷ value)
