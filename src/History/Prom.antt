-- ===== src/History/Prom.antt =====
-- The parser of the Prometheus text exposition, crates/console-server/src/history/prom.rs. A text is a list of
-- characters; `str::parse::<f64>` is the interface's.
pub mod Labels
pub mod Laws
use muser_console.Base.{
  ℕ, Bool, true, false, not, ◌&&◌, ◌==◌, Text, codes, text_eq, List, [], ◌∷◌, ◌++◌, find, last,
  Option, none, some, ◌>>=◌, split_once, trim, trim_start, is_whitespace, if◌then◌else◌,
}
use muser_console.Float.{Float}
use muser_console.History.Prom.Labels.{close_brace, outside, parse_labels, valid_metric_name}

-- the characters before the first white space, and the text from it on
unfoldable pub take_word : Text → Text × Text
take_word [] = ([], [])
take_word (c ∷ s) = elim (is_whitespace c) [
  | true ↦ ([], c ∷ s)
  | false ↦ let (word, rest) = take_word s in (c ∷ word, rest)
]

-- `split_whitespace().next()`
unfoldable pub first_word : Text → Option Text
unfolding take_word
first_word s = elim (trim_start s) [ [] ↦ none | c ∷ t ↦ some (take_word (c ∷ t)).0 ]

-- the two halves of a line, if there is white space in it
abbrev pub halves : Text × Text → Option (Text × Text)
halves (word, []) = none
halves (word, c ∷ rest) = some (word, c ∷ rest)

-- `find(char::is_whitespace)` and the split there
unfoldable pub split_at_space : Text → Option (Text × Text)
unfolding take_word
split_at_space s = halves (take_word s)

-- `str::lines`: a line ends at a line feed, which takes a carriage return before it along; what follows
-- the last line feed is a line if it is not empty.
abbrev pub drop_return : Text → Text
drop_return [] = []
drop_return (c ∷ []) = if c == 13 then [] else c ∷ []
drop_return (c ∷ (d ∷ s)) = c ∷ drop_return (d ∷ s)

unfoldable pub lines_with : Text → Text → List Text
lines_with [] [] = []
lines_with (c ∷ line) [] = (c ∷ line) ∷ []
lines_with line (c ∷ s) = elim (c == 10) [
  | true ↦ drop_return line ∷ lines_with [] s
  | false ↦ lines_with (line ++ c ∷ []) s
]

unfoldable pub lines : Text → List Text
unfolding lines_with
lines text = lines_with [] text

abbrev pub filter_map {ℓ κ} : {A : Type ℓ} {B : Type κ} → (A → Option B) → List A → List B
filter_map f [] = []
filter_map f (a ∷ rest) = elim (f a) [ none ↦ filter_map f rest | some b ↦ b ∷ filter_map f rest ]

module _ (float : Float) where
  pub record Sample : Type 0 where
    pub metric : Text
    pub labels : List (Text × Text)
    pub value : float.F64

  -- the value of the first label of that name
  abbrev pub label : Text → Sample → Option Text
  label key sample =
      find (λ (name, _). text_eq name key) sample.labels >>= (λ (_, value). some value)

  -- The metric, the labels, and the text behind them. The braces open at the first `{` of the line.
  unfoldable pub split_line : Text → Option (Text × List (Text × Text) × Text)
  unfolding close_brace parse_labels split_at_space
  split_line line = elim (split_once line 123) [
    | some (before, behind) ↦
        close_brace outside behind
        >>= (λ (inside, rest). parse_labels inside >>= (λ labels. some (before, labels, rest)))
    | none ↦ split_at_space line >>= (λ (word, rest). some (word, [], rest))
  ]

  unfoldable pub sample_of : Text × List (Text × Text) × Text → Option Sample
  unfolding valid_metric_name first_word
  sample_of (before, labels, rest) =
      let metric = trim before in
      if not (valid_metric_name metric)
      then none
      else first_word rest >>= (λ word.
        float.parse word
        >>= (λ value. some (record { metric = metric; labels = labels; value = value })))

  unfoldable pub parse_line : Text → Option Sample
  unfolding split_line sample_of
  parse_line line = elim (trim line) [
    | [] ↦ none
    | c ∷ s ↦ if c == 35 then none else split_line (c ∷ s) >>= sample_of
  ]

  pub record Exposition : Type 0 where
    pub samples : List Sample

  unfoldable pub parse : Text → Exposition
  unfolding parse_line lines
  parse text = record { samples = filter_map parse_line (lines text) }

  -- `sample.label(key) == Some(wanted)`
  abbrev pub has_label : Text → Text → Sample → Bool
  has_label key wanted sample = elim (label key sample) [ none ↦ false | some v ↦ text_eq v wanted ]

  unfoldable pub labeled_value : Exposition → Text → Text → Text → Option float.F64
  labeled_value exposition metric key wanted =
      find (λ (s : Sample). text_eq s.metric metric && has_label key wanted s) exposition.samples
      >>= (λ s. some s.value)

  abbrev pub matches_quantile : Option Text → Sample → Bool
  matches_quantile none s = true
  matches_quantile (some wanted) s = has_label (codes "quantile") wanted s

  unfoldable pub value : Exposition → Text → Option Text → Option float.F64
  value exposition metric quantile =
      find (λ (s : Sample). text_eq s.metric metric && matches_quantile quantile s)
        exposition.samples
      >>= (λ s. some s.value)
