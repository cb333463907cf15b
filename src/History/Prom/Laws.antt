-- ===== src/History/Prom/Laws.antt =====
-- What the scans of crates/console-server/src/history/prom.rs do on a text in pieces.
use muser_console.Base.{
  ℕ, Bool, true, false, not, ◌==◌, ==_iff, all, and_split, Text, [], ◌∷◌, ◌++◌, append-nil,
  append_assoc, reverse, Option, none, some, ◌≡◌, refl, ◌∙◌, sym, ap, arith, split_once,
  split_once_with, trim, trim_start, is_whitespace,
}
use mathlib.Core.List.{reverse_aux-append, reverse-reverse}
use muser_console.History.Prom.Labels.{
  close_brace, outside, push, is_key_char, is_ascii_whitespace, take_key, skip_space,
}
use muser_console.History.Prom.{take_word}

-- a text in front of the first one
abbrev pub prepend : Text → Option (Text × Text) → Option (Text × Text)
prepend [] o = o
prepend (c ∷ s) o = push c (prepend s o)

pub prepend_append :
    (a b : Text) (o : Option (Text × Text)) → prepend (a ++ b) o ≡ prepend a (prepend b o)
prepend_append [] b o = refl
prepend_append (c ∷ a) b o = ap (push c) (prepend_append a b o)

pub prepend-some : (a b rest : Text) → prepend a (some (b, rest)) ≡ some (a ++ b, rest)
prepend-some [] b rest = refl
prepend-some (c ∷ a) b rest = rw (prepend-some a b rest)

eq_refl : (n : ℕ) → (n == n) ≡ true
eq_refl n = (==_iff n n).1 refl

pub close_brace-key :
    (key rest : Text)
    → all is_key_char key ≡ true
    → close_brace outside (key ++ rest) ≡ prepend key (close_brace outside rest)
unfolding close_brace
close_brace-key [] rest h = refl
close_brace-key (c ∷ key) rest h =
    let (hc, hs) = and_split (is_key_char c) (all is_key_char key) h in
    let quote : ((c == 34) ≡ false) = ground (arith, hc) in
    let brace : ((c == 125) ≡ false) = ground (arith, hc) in
    rw (close_brace, quote, brace) (ap (push c) (close_brace-key key rest hs))

pub take_key-key :
    (key rest : Text) (c : ℕ)
    → all is_key_char key ≡ true
    → is_key_char c ≡ false
    → take_key (key ++ c ∷ rest) ≡ (key, c ∷ rest)
unfolding take_key
take_key-key [] rest c h stop = rw (take_key, stop)
take_key-key (k ∷ key) rest c h stop =
    let (hk, hs) = and_split (is_key_char k) (all is_key_char key) h in
    rw (take_key, hk, take_key-key key rest c hs stop)

pub skip_space-stops :
    (c : ℕ) (rest : Text) → is_ascii_whitespace c ≡ false → skip_space (c ∷ rest) ≡ (c ∷ rest)
unfolding skip_space
skip_space-stops c rest h = rw (skip_space, h)

-- a text without white space
abbrev pub solid : ℕ → Bool
solid c = not (is_whitespace c)

pub take_word-solid :
    (word rest : Text) (c : ℕ)
    → all solid word ≡ true
    → is_whitespace c ≡ true
    → take_word (word ++ c ∷ rest) ≡ (word, c ∷ rest)
unfolding take_word
take_word-solid [] rest c h stop = rw (take_word, stop)
take_word-solid (k ∷ word) rest c h stop =
    let (hk, hs) = and_split (solid k) (all solid word) h in
    let inside : (is_whitespace k ≡ false) = ground (arith, hk) in
    rw (take_word, inside, take_word-solid word rest c hs stop)

pub take_word-all : (word : Text) → all solid word ≡ true → take_word word ≡ (word, [])
unfolding take_word
take_word-all [] h = refl
take_word-all (k ∷ word) h =
    let (hk, hs) = and_split (solid k) (all solid word) h in
    let inside : (is_whitespace k ≡ false) = ground (arith, hk) in
    rw (take_word, inside, take_word-all word hs)

split_once_with-passes :
    (sep : ℕ) (s before rest : Text)
    → all (λ c. not (c == sep)) s ≡ true
    → split_once_with sep (s ++ sep ∷ rest) before ≡ some (before ++ s, rest)
split_once_with-passes sep [] before rest h = rw (split_once_with, eq_refl sep, append-nil before)
split_once_with-passes sep (c ∷ s) before rest h =
    let (hc, hs) = and_split (not (c == sep)) (all (λ c. not (c == sep)) s) h in
    let other : ((c == sep) ≡ false) = ground (arith, hc) in
    rw (
      split_once_with,
      other,
      split_once_with-passes sep s (before ++ c ∷ []) rest hs,
      append_assoc before (c ∷ []) s,
    )

-- A separator that the first piece does not hold splits the text there.
pub split_once-piece :
    (sep : ℕ) (s rest : Text)
    → all (λ c. not (c == sep)) s ≡ true
    → split_once (s ++ sep ∷ rest) sep ≡ some (s, rest)
split_once-piece sep s rest h = split_once_with-passes sep s [] rest h

split_once_with-misses :
    (sep : ℕ) (s before : Text)
    → all (λ c. not (c == sep)) s ≡ true
    → split_once_with sep s before ≡ none
split_once_with-misses sep [] before h = refl
split_once_with-misses sep (c ∷ s) before h =
    let (hc, hs) = and_split (not (c == sep)) (all (λ c. not (c == sep)) s) h in
    let other : ((c == sep) ≡ false) = ground (arith, hc) in
    rw (split_once_with, other, split_once_with-misses sep s (before ++ c ∷ []) hs)

pub split_once-none :
    (sep : ℕ) (s : Text) → all (λ c. not (c == sep)) s ≡ true → split_once s sep ≡ none
split_once-none sep s h = split_once_with-misses sep s [] h

trim_start-solid : (c : ℕ) (s : Text) → is_whitespace c ≡ false → trim_start (c ∷ s) ≡ (c ∷ s)
trim_start-solid c s h = rw (trim_start, h)

-- A text that starts and ends with characters that are not white space is its own `trim`.
pub trim-solid :
    (c d : ℕ) (middle : Text)
    → is_whitespace c ≡ false
    → is_whitespace d ≡ false
    → trim (c ∷ (middle ++ d ∷ [])) ≡ (c ∷ (middle ++ d ∷ []))
trim-solid c d middle hc hd =
    let whole = c ∷ (middle ++ d ∷ []) in
    let turned : (reverse whole ≡ (d ∷ reverse (c ∷ middle))) =
      reverse_aux-append (c ∷ middle) (d ∷ []) [] in
    let front : (trim_start whole ≡ whole) = trim_start-solid c (middle ++ d ∷ []) hc in
    let back : (trim_start (reverse whole) ≡ reverse whole) =
      ap trim_start turned ∙ trim_start-solid d (reverse (c ∷ middle)) hd ∙ sym turned in
    ap (λ s. reverse (trim_start (reverse s))) front ∙ ap reverse back ∙ reverse-reverse whole
