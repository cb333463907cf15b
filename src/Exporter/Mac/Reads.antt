-- ===== src/Exporter/Mac/Reads.antt =====
-- The console's parser, crates/console-server/src/history/prom.rs, on the lines of
-- agents/mac-exporter/src/expo.rs.
use muser_console.Base.{
  ℕ, Bool, true, false, not, ◌&&◌, ◌==◌, all, Bool-cases, and_split, and_join, ◌||◌, Text, List, [],
  ◌∷◌, ◌++◌, append-nil, append_assoc, none, some, ◌≡◌, refl, ◌∙◌, sym, ap, subst, inl, inr, arith,
  All, trim, trim_start, is_whitespace, split_once,
}
use muser_console.Float.{Float}
use muser_console.History.Prom.{
  take_word, first_word, split_line, split_at_space, halves, sample_of, parse_line,
}
use muser_console.History.Prom.Labels.{
  close_brace, outside, is_ascii_alphanumeric, is_metric_char, is_metric_start, valid_metric_name,
}
use muser_console.History.Prom.Laws.{
  prepend-some, solid, trim-solid, take_word-solid, take_word-all, split_once-piece,
  split_once-none,
}
use muser_console.Exporter.Mac.{write_labels, labels, sample_line}
use muser_console.Exporter.Mac.Labels.{Named, close_brace-labels, parse_labels-write_labels}

-- what `Display` of a float is made of: letters, digits, the sign and the point
abbrev pub is_number_char : ℕ → Bool
is_number_char c = is_ascii_alphanumeric c || c == 45 || c == 46

abbrev pub is_number : Text → Bool
is_number [] = false
is_number (d ∷ s) = is_number_char d && all is_number_char s

pub all_weaken :
    (p q : ℕ → Bool) (s : Text)
    → ((c : ℕ) → p c ≡ true → q c ≡ true)
    → all p s ≡ true
    → all q s ≡ true
all_weaken p q [] f h = refl
all_weaken p q (c ∷ s) f h =
    let (hc, hs) = and_split (p c) (all p s) h in
    and_join (q c) (all q s) (f c hc) (all_weaken p q s f hs)

number_solid : (s : Text) → all is_number_char s ≡ true → all solid s ≡ true
number_solid s = all_weaken is_number_char solid s (λ c h. ground (arith, h))

metric_solid : (s : Text) → all is_metric_char s ≡ true → all solid s ≡ true
metric_solid s = all_weaken is_metric_char solid s (λ c h. ground (arith, h))

metric_open : (s : Text) → all is_metric_char s ≡ true → all (λ c. not (c == 123)) s ≡ true
metric_open s = all_weaken is_metric_char (λ c. not (c == 123)) s (λ c h. ground (arith, h))

number_open : (s : Text) → all is_number_char s ≡ true → all (λ c. not (c == 123)) s ≡ true
number_open s = all_weaken is_number_char (λ c. not (c == 123)) s (λ c h. ground (arith, h))

-- a text that is not empty has a last character
ends :
    (p : ℕ → Bool) (d : ℕ) (s : Text)
    → p d ≡ true
    → all p s ≡ true
    → (init : Text) × (last : ℕ) × (((d ∷ s) ≡ (init ++ last ∷ [])) × (p last ≡ true))
ends p d [] hd hs = ([], d, (refl, hd))
ends p d (e ∷ s) hd hs =
    let (he, ht) = and_split (p e) (all p s) hs in
    let (init, last, (eq, h)) = ends p e s he ht in (d ∷ init, last, (ap (◌∷◌ d) eq, h))

metric_char-solid : (c : ℕ) → is_metric_char c ≡ true → is_whitespace c ≡ false
metric_char-solid c h = ground (arith, h)

number_char-solid : (c : ℕ) → is_number_char c ≡ true → is_whitespace c ≡ false
number_char-solid c h = ground (arith, h)

-- A line of a metric's first character, something, and a number is its own `trim`.
line_trim :
    (m d : ℕ) (middle s : Text)
    → is_metric_char m ≡ true
    → is_number (d ∷ s) ≡ true
    → trim (m ∷ (middle ++ (d ∷ s))) ≡ (m ∷ (middle ++ (d ∷ s)))
line_trim m d middle s hm hs =
    let (hd, ht) = and_split (is_number_char d) (all is_number_char s) hs in
    let (init, last, (eq, h)) = ends is_number_char d s hd ht in
    let whole : ((middle ++ (d ∷ s)) ≡ ((middle ++ init) ++ last ∷ [])) =
      ap (◌++◌ middle) eq ∙ sym (append_assoc middle init (last ∷ [])) in
    subst (λ w. trim (m ∷ w) ≡ (m ∷ w)) (sym whole)
      (trim-solid m last (middle ++ init) (metric_char-solid m hm) (number_char-solid last h))

metric_trim :
    (m : ℕ) (s : Text)
    → is_metric_char m ≡ true
    → all is_metric_char s ≡ true
    → trim (m ∷ s) ≡ (m ∷ s)
metric_trim m [] hm hs =
    let at = metric_char-solid m hm in rw (trim_start, at) (rw (trim_start, at))
metric_trim m (d ∷ s) hm hs =
    let (hd, ht) = and_split (is_metric_char d) (all is_metric_char s) hs in
    let (init, last, (eq, h)) = ends is_metric_char d s hd ht in
    subst (λ w. trim (m ∷ w) ≡ (m ∷ w)) (sym eq)
      (trim-solid m last init (metric_char-solid m hm) (metric_char-solid last h))

first_word-number : (value : Text) → is_number value ≡ true → first_word (32 ∷ value) ≡ some value
unfolding first_word
first_word-number [] h = cc
first_word-number (d ∷ s) h =
    let (hd, ht) = and_split (is_number_char d) (all is_number_char s) h in
    let at = number_char-solid d hd in
    let word : (take_word (d ∷ s) ≡ (d ∷ s, [])) = take_word-all (d ∷ s) (number_solid (d ∷ s) h) in
    rw (first_word, trim_start, at) (ap (λ p. some p.0) word)

pub all-append :
    (p : ℕ → Bool) (s t : Text) → all p s ≡ true → all p t ≡ true → all p (s ++ t) ≡ true
all-append p [] t hs ht = ht
all-append p (c ∷ s) t hs ht =
    let (hc, h) = and_split (p c) (all p s) hs in
    and_join (p c) (all p (s ++ t)) hc (all-append p s t h ht)

pub number_chars : (s : Text) → is_number s ≡ true → all is_number_char s ≡ true
number_chars [] h = refl
number_chars (d ∷ s) h = h

split_line-sample_line :
    (float : Float) (metric value : Text) (pairs : List (Text × Text))
    → all is_metric_char metric ≡ true
    → All Named pairs
    → is_number value ≡ true
    → split_line float (metric ++ (labels pairs ++ 32 ∷ value)) ≡ some (metric, pairs, 32 ∷ value)
unfolding split_line split_at_space labels
split_line-sample_line float metric value [] hm hp hv =
    let free : (split_once (metric ++ 32 ∷ value) 123 ≡ none) =
      split_once-none 123 (metric ++ 32 ∷ value) (
        all-append (λ c. not (c == 123)) metric (32 ∷ value) (metric_open metric hm)
          (number_open value (number_chars value hv))) in
    let cut : (split_at_space (metric ++ 32 ∷ value) ≡ some (metric, 32 ∷ value)) =
      ap halves (take_word-solid metric value 32 (metric_solid metric hm) refl) in
    rw (split_line, free) (rw cut)
split_line-sample_line float metric value (pair ∷ pairs) hm hp hv =
    let body = write_labels 0 (pair ∷ pairs) in
    let opened : (split_once (metric ++ (labels (pair ∷ pairs) ++ 32 ∷ value)) 123
        ≡ some (metric, (body ++ 125 ∷ []) ++ 32 ∷ value)) =
      split_once-piece 123 metric ((body ++ 125 ∷ []) ++ 32 ∷ value) (metric_open metric hm) in
    let closed : (close_brace outside ((body ++ 125 ∷ []) ++ 32 ∷ value)
        ≡ some (body, 32 ∷ value)) =
      ap (close_brace outside) (append_assoc body (125 ∷ []) (32 ∷ value))
      ∙ close_brace-labels 0 (pair ∷ pairs) (125 ∷ (32 ∷ value)) hp
      ∙ prepend-some body [] (32 ∷ value)
      ∙ ap (λ s. some (s, 32 ∷ value)) (append-nil body) in
    let read = parse_labels-write_labels (pair ∷ pairs) hp in
    rw (split_line, opened) (rw closed (rw read))

valid_start :
    (m : ℕ) (ms : Text)
    → valid_metric_name (m ∷ ms) ≡ true
    → (is_metric_start m ≡ true) × (all is_metric_char ms ≡ true)
unfolding valid_metric_name
valid_start m ms h = elim (Bool-cases (is_metric_start m)) [
  | inl e ↦ (e, sym (rw (valid_metric_name, e)) ∙ h)
  | inr e ↦
      let refused : (valid_metric_name (m ∷ ms) ≡ false) = rw (valid_metric_name, e) in
      absurd (cc (h, refused))
]

start_char : (m : ℕ) → is_metric_start m ≡ true → is_metric_char m ≡ true
start_char m h = ground (arith, h)

start_no_comment : (m : ℕ) → is_metric_start m ≡ true → (m == 35) ≡ false
start_no_comment m h = ground (arith, h)

-- a metric's name consists of the characters of such names
pub metric_chars :
    (metric : Text) → valid_metric_name metric ≡ true → all is_metric_char metric ≡ true
metric_chars [] h = refl
metric_chars (m ∷ ms) h =
    let (start, rest) = valid_start m ms h in
    and_join (is_metric_char m) (all is_metric_char ms) (start_char m start) rest

sample_of-parts :
    (float : Float) (m d : ℕ) (ms s : Text) (pairs : List (Text × Text)) (x : float.F64)
    → valid_metric_name (m ∷ ms) ≡ true
    → is_number (d ∷ s) ≡ true
    → float.parse (d ∷ s) ≡ some x
    → sample_of float (m ∷ ms, pairs, 32 ∷ (d ∷ s))
      ≡ some (record { metric = m ∷ ms; labels = pairs; value = x })
unfolding sample_of
sample_of-parts float m d ms s pairs x hm hv parsed =
    let (start, rest) = valid_start m ms hm in
    let bare = metric_trim m ms (start_char m start) rest in
    let word = first_word-number (d ∷ s) hv in rw (sample_of, bare, hm, word, parsed)

line_of-trim :
    (m d : ℕ) (ms s tags : Text)
    → is_metric_char m ≡ true
    → is_number (d ∷ s) ≡ true
    → trim (m ∷ (ms ++ (tags ++ 32 ∷ (d ∷ s)))) ≡ (m ∷ (ms ++ (tags ++ 32 ∷ (d ∷ s))))
line_of-trim m d ms s tags hm hv =
    let middle = ms ++ (tags ++ 32 ∷ []) in
    let shape : ((middle ++ (d ∷ s)) ≡ (ms ++ (tags ++ 32 ∷ (d ∷ s)))) =
      append_assoc ms (tags ++ 32 ∷ []) (d ∷ s)
      ∙ ap (◌++◌ ms) (append_assoc tags (32 ∷ []) (d ∷ s)) in
    subst (λ w. trim (m ∷ w) ≡ (m ∷ w)) shape (line_trim m d middle s hm hv)

-- A line that the exporter writes for a metric is read back by the console as that metric, with those
-- labels, and with the value that its text stands for.
pub parse_line-sample_line :
    (float : Float) (metric value : Text) (pairs : List (Text × Text)) (x : float.F64)
    → valid_metric_name metric ≡ true
    → All Named pairs
    → is_number value ≡ true
    → float.parse value ≡ some x
    → parse_line float (sample_line metric pairs value)
      ≡ some (record { metric = metric; labels = pairs; value = x })
unfolding parse_line sample_line sample_of valid_metric_name
parse_line-sample_line float [] value pairs x hm hp hv parsed = cc
parse_line-sample_line float (m ∷ ms) [] pairs x hm hp hv parsed = cc
parse_line-sample_line float (m ∷ ms) (d ∷ s) pairs x hm hp hv parsed =
    let (start, rest) = valid_start m ms hm in
    let name = start_char m start in
    let whole = line_of-trim m d ms s (labels pairs) name hv in
    let cut =
      split_line-sample_line float (m ∷ ms) (d ∷ s) pairs
        (and_join (is_metric_char m) (all is_metric_char ms) name rest) hp hv in
    rw (parse_line, whole, start_no_comment m start)
      (rw cut (sample_of-parts float m d ms s pairs x hm hv parsed))
