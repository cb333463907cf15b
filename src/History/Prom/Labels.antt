-- ===== src/History/Prom/Labels.antt =====
-- `close_brace`, `parse_labels` and `valid_metric_name` of crates/console-server/src/history/prom.rs. The source
-- walks an index over the bytes; these walk the characters from that index on. Every byte that the source
-- compares is ASCII, so no step of it stands inside a character.
pub mod Fuel
use muser_console.Base.{
  ℕ, zero, suc, Bool, true, false, not, ◌||◌, ◌&&◌, ◌==◌, leb, all, Text, List, [], ◌∷◌, ◌++◌,
  length, Option, none, some, ◌>>=◌, if◌then◌else◌,
}

abbrev pub is_ascii_alphabetic : ℕ → Bool
is_ascii_alphabetic c = (leb 65 c && leb c 90) || (leb 97 c && leb c 122)

abbrev pub is_ascii_alphanumeric : ℕ → Bool
is_ascii_alphanumeric c = is_ascii_alphabetic c || (leb 48 c && leb c 57)

-- space, tab, line feed, form feed, carriage return
abbrev pub is_ascii_whitespace : ℕ → Bool
is_ascii_whitespace c = c == 32 || (c == 9 || (c == 10 || (c == 12 || c == 13)))

-- the characters of a label's name
abbrev pub is_key_char : ℕ → Bool
is_key_char c = is_ascii_alphanumeric c || c == 95

abbrev pub is_metric_start : ℕ → Bool
is_metric_start c = is_ascii_alphabetic c || c == 95 || c == 58

abbrev pub is_metric_char : ℕ → Bool
is_metric_char c = is_ascii_alphanumeric c || c == 95 || c == 58

unfoldable pub valid_metric_name : Text → Bool
valid_metric_name [] = false
valid_metric_name (first ∷ bytes) =
    if not (is_metric_start first) then false else all is_metric_char bytes

-- where a scan of a label set stands: outside the quotes, inside them, or behind a backslash inside them
pub data Scan : Type 0 where
  outside quoted skipping : Scan

-- a character in front of the first text
abbrev pub push : ℕ → Option (Text × Text) → Option (Text × Text)
push c none = none
push c (some (a, b)) = some (c ∷ a, b)

-- The text before the `}` that closes the label set, and the text after it.
unfoldable pub close_brace : Scan → Text → Option (Text × Text)
close_brace at [] = none
close_brace outside (c ∷ rest) = elim (c == 34) [
  | true ↦ push c (close_brace quoted rest)
  | false ↦ elim (c == 125) [ true ↦ some ([], rest) | false ↦ push c (close_brace outside rest) ]
]
close_brace quoted (c ∷ rest) = elim (c == 92) [
  | true ↦ push c (close_brace skipping rest)
  | false ↦ elim (c == 34) [
    | true ↦ push c (close_brace outside rest)
    | false ↦ push c (close_brace quoted rest)
  ]
]
close_brace skipping (c ∷ rest) = push c (close_brace quoted rest)

unfoldable pub skip_space : Text → Text
skip_space [] = []
skip_space (c ∷ s) = elim (is_ascii_whitespace c) [ true ↦ skip_space s | false ↦ c ∷ s ]

-- the label's name, and what follows it
unfoldable pub take_key : Text → Text × Text
take_key [] = ([], [])
take_key (c ∷ s) = elim (is_key_char c) [
  | true ↦ let (key, rest) = take_key s in (c ∷ key, rest)
  | false ↦ ([], c ∷ s)
]

-- the escape set
abbrev pub unescape : ℕ → Option ℕ
unescape c =
    if c == 110 then some 10 else if c == 92 then some 92 else if c == 34 then some 34 else none

-- The label's value up to its closing quote, unescaped, and what follows; the first argument is whether a
-- backslash stands before the text.
unfoldable pub read_value : Bool → Text → Option (Text × Text)
read_value escaped [] = none
read_value true (c ∷ rest) = elim (unescape c) [
  | none ↦ none
  | some v ↦ push v (read_value false rest)
]
read_value false (c ∷ rest) = elim (c == 34) [
  | true ↦ some ([], rest)
  | false ↦ elim (c == 92) [ true ↦ read_value true rest | false ↦ push c (read_value false rest) ]
]

-- `if bytes.get(index) != Some(&b'..') { return None }`, then past it
unfoldable pub expect : ℕ → Text → Option Text
expect wanted [] = none
expect wanted (c ∷ rest) = if c == wanted then some rest else none

-- what follows a label's name
unfoldable pub label_after : Text → Text → Option ((Text × Text) × Text)
unfolding skip_space expect read_value
label_after [] after_key = none
label_after (k ∷ ks) after_key = expect 61 (skip_space after_key) >>= (λ after_equals.
    expect 34 (skip_space after_equals) >>= (λ opened.
      read_value false opened >>= (λ (value, rest). some ((k ∷ ks, value), skip_space rest))))

-- one `key = "value"`, the text behind the space after it included
unfoldable pub parse_label : Text → Option ((Text × Text) × Text)
unfolding take_key label_after
parse_label text = let (key, after_key) = take_key text in label_after key after_key

-- The loop, on fuel: each round consumes a name at least. `none` is a loop that has not come to its end;
-- `some` is the value that the function returns.
unfoldable pub parse_labels_with :
    ℕ → Text → List (Text × Text) → Option (Option (List (Text × Text)))
unfolding parse_label
parse_labels_with zero text labels = none
parse_labels_with (suc fuel) text labels = elim (skip_space text) [
  | [] ↦ some (some labels)
  | c ∷ s ↦ elim (parse_label (c ∷ s)) [
    | none ↦ some none
    | some (label, rest) ↦ elim rest [
      | [] ↦ some (some (labels ++ label ∷ []))
      | d ∷ more ↦ elim (d == 44) [
        | true ↦ parse_labels_with fuel more (labels ++ label ∷ [])
        | false ↦ some none
      ]
    ]
  ]
]

-- the value of a loop that has come to its end
abbrev pub returned : Option (Option (List (Text × Text))) → Option (List (Text × Text))
returned none = none
returned (some value) = value

unfoldable pub parse_labels : Text → Option (List (Text × Text))
unfolding parse_labels_with
parse_labels text = returned (parse_labels_with (suc (length text)) text [])
