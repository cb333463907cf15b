-- ===== src/Exporter/Mac/Labels.antt =====
-- The console's parser of labels, crates/console-server/src/history/prom.rs, on what
-- agents/mac-exporter/src/expo.rs writes.
use muser_console.Base.{
  ℕ, zero, suc, ◌≤◌, Bool, true, false, ◌&&◌, ◌==◌, all, Bool-cases, and_split, Text, List, [], ◌∷◌,
  ◌++◌, append_assoc, length, length-append, some, ◌>>=◌, ◌≡◌, refl, ◌∙◌, sym, ap, inl, inr, arith,
  All,
}
use muser_console.History.Prom.Labels.{
  close_brace, outside, quoted, push, is_key_char, skip_space, read_value, expect, label_after,
  parse_label, parse_labels_with, returned, parse_labels,
}
use muser_console.History.Prom.Laws.{
  prepend, prepend_append, close_brace-key, take_key-key, skip_space-stops,
}
use muser_console.Exporter.Mac.{escape_label_value, label_text, write_labels, comma}

-- the names that the exposition format gives to labels
abbrev pub is_label_name : Text → Bool
is_label_name [] = false
is_label_name (k ∷ ks) = is_key_char k && all is_key_char ks

abbrev pub Named : Text × Text → Type 0
Named (name, value) = is_label_name name ≡ true

-- What the exporter escapes, the console reads back: every label value comes through unchanged, whatever
-- follows its closing quote.
pub read_value-escape :
    (value rest : Text)
    → read_value false (escape_label_value value ++ 34 ∷ rest) ≡ some (value, rest)
unfolding read_value escape_label_value
read_value-escape [] rest = refl
read_value-escape (c ∷ value) rest =
    let behind = read_value-escape value rest in
    elim (Bool-cases (c == 92)) [
      | inl e ↦ let at : (c ≡ 92) = ground (arith, e) in rw at (rw behind)
      | inr backslash ↦ elim (Bool-cases (c == 34)) [
        | inl e ↦ let at : (c ≡ 34) = ground (arith, e) in rw at (rw behind)
        | inr quote ↦ elim (Bool-cases (c == 10)) [
          | inl e ↦ let at : (c ≡ 10) = ground (arith, e) in rw at (rw behind)
          | inr feed ↦ rw (backslash, quote, feed) (rw (read_value, quote, backslash, behind))
        ]
      ]
    ]

close_brace-escape :
    (value rest : Text)
    → close_brace quoted (escape_label_value value ++ 34 ∷ rest)
      ≡ prepend (escape_label_value value) (push 34 (close_brace outside rest))
unfolding close_brace escape_label_value
close_brace-escape [] rest = refl
close_brace-escape (c ∷ value) rest =
    let behind = close_brace-escape value rest in
    elim (Bool-cases (c == 92)) [
      | inl e ↦ let at : (c ≡ 92) = ground (arith, e) in rw at (rw behind)
      | inr backslash ↦ elim (Bool-cases (c == 34)) [
        | inl e ↦ let at : (c ≡ 34) = ground (arith, e) in rw at (rw behind)
        | inr quote ↦ elim (Bool-cases (c == 10)) [
          | inl e ↦ let at : (c ≡ 10) = ground (arith, e) in rw at (rw behind)
          | inr feed ↦ rw (backslash, quote, feed) (rw (close_brace, backslash, quote, behind))
        ]
      ]
    ]

label_text-append :
    (name value rest : Text)
    → label_text (name, value) ++ rest
      ≡ (name ++ (61 ∷ (34 ∷ (escape_label_value value ++ 34 ∷ rest))))
unfolding label_text
label_text-append name value rest =
    append_assoc name (61 ∷ (34 ∷ (escape_label_value value ++ 34 ∷ []))) rest
    ∙ ap (λ s. name ++ (61 ∷ (34 ∷ s))) (append_assoc (escape_label_value value) (34 ∷ []) rest)

name_chars : (name : Text) → is_label_name name ≡ true → all is_key_char name ≡ true
name_chars [] h = refl
name_chars (k ∷ ks) h = h

close_brace-label :
    (pair : Text × Text) (rest : Text)
    → Named pair
    → close_brace outside (label_text pair ++ rest)
      ≡ prepend (label_text pair) (close_brace outside rest)
unfolding close_brace label_text
close_brace-label (name, value) rest h =
    ap (close_brace outside) (label_text-append name value rest)
    ∙ close_brace-key name (61 ∷ (34 ∷ (escape_label_value value ++ 34 ∷ rest))) (name_chars name h)
    ∙ ap (λ o. prepend name (push 61 (push 34 o))) (close_brace-escape value rest)
    ∙ sym (
        prepend_append name (61 ∷ (34 ∷ (escape_label_value value ++ 34 ∷ [])))
          (close_brace outside rest)
        ∙ ap (λ o. prepend name (push 61 (push 34 o)))
            (prepend_append (escape_label_value value) (34 ∷ []) (close_brace outside rest)))

pub close_brace-labels :
    (index : ℕ) (pairs : List (Text × Text)) (rest : Text)
    → All Named pairs
    → close_brace outside (write_labels index pairs ++ rest)
      ≡ prepend (write_labels index pairs) (close_brace outside rest)
unfolding write_labels close_brace
close_brace-labels index [] rest h = refl
close_brace-labels zero (pair ∷ pairs) rest (hp, h) =
    ap (close_brace outside) (append_assoc (label_text pair) (write_labels 1 pairs) rest)
    ∙ close_brace-label pair (write_labels 1 pairs ++ rest) hp
    ∙ ap (prepend (label_text pair)) (close_brace-labels 1 pairs rest h)
    ∙ sym (prepend_append (label_text pair) (write_labels 1 pairs) (close_brace outside rest))
close_brace-labels (suc index) (pair ∷ pairs) rest (hp, h) =
    ap (λ s. push 44 (close_brace outside s))
      (append_assoc (label_text pair) (write_labels (suc (suc index)) pairs) rest)
    ∙ ap (push 44) (close_brace-label pair (write_labels (suc (suc index)) pairs ++ rest) hp)
    ∙ ap (λ o. push 44 (prepend (label_text pair) o))
        (close_brace-labels (suc (suc index)) pairs rest h)
    ∙ ap (push 44) (
        sym (
          prepend_append (label_text pair) (write_labels (suc (suc index)) pairs)
            (close_brace outside rest)))

parse_label-text :
    (pair : Text × Text) (rest : Text)
    → Named pair
    → parse_label (label_text pair ++ rest) ≡ some (pair, skip_space rest)
unfolding parse_label label_after skip_space expect
parse_label-text ([], value) rest h = cc
parse_label-text (k ∷ ks, value) rest h =
    ap parse_label (label_text-append (k ∷ ks) value rest)
    ∙ ap (λ p. label_after p.0 p.1)
        (take_key-key (k ∷ ks) (34 ∷ (escape_label_value value ++ 34 ∷ rest)) 61 h refl)
    ∙ ap (λ o. o >>= (λ (v, r). some ((k ∷ ks, v), skip_space r))) (read_value-escape value rest)

label_start :
    (pair : Text × Text) (rest : Text)
    → Named pair
    → skip_space (label_text pair ++ rest) ≡ (label_text pair ++ rest)
unfolding label_text
label_start ([], value) rest h = cc
label_start (k ∷ ks, value) rest h =
    let (hk, hs) = and_split (is_key_char k) (all is_key_char ks) h in
    skip_space-stops k _ (ground (arith, hk))

round_ends :
    (fuel c : ℕ) (text s : Text) (done : List (Text × Text)) (label : Text × Text)
    → skip_space text ≡ (c ∷ s)
    → parse_label (c ∷ s) ≡ some (label, [])
    → parse_labels_with (suc fuel) text done ≡ some (some (done ++ label ∷ []))
unfolding parse_labels_with
round_ends fuel c text s done label e f = rw (parse_labels_with, e, f)

round_continues :
    (fuel c : ℕ) (text s more : Text) (done : List (Text × Text)) (label : Text × Text)
    → skip_space text ≡ (c ∷ s)
    → parse_label (c ∷ s) ≡ some (label, 44 ∷ more)
    → parse_labels_with (suc fuel) text done ≡ parse_labels_with fuel more (done ++ label ∷ [])
unfolding parse_labels_with
round_continues fuel c text s more done label e f = rw (parse_labels_with, e, f)

-- the loop on the rest of the labels, behind one that was read
rest_read :
    (fuel index : ℕ) (pairs done : List (Text × Text)) (pair : Text × Text)
    → length pairs ≤ fuel
    → All Named pairs
    → Named pair
    → parse_labels_with (suc fuel) (label_text pair ++ write_labels (suc index) pairs) done
      ≡ some (some (done ++ pair ∷ pairs))
unfolding parse_labels_with write_labels
rest_read fuel index pairs done ([], value) enough h hp = cc
rest_read fuel index [] done (k ∷ ks, value) enough h hp =
    let pair : (Text × Text) = (k ∷ ks, value) in
    round_ends fuel k (label_text pair ++ []) _ done pair (label_start pair [] hp)
      (parse_label-text pair [] hp)
rest_read zero index (next ∷ pairs) done (k ∷ ks, value) enough h hp =
    absurd (omega (arith, enough))
rest_read (suc fuel) index (next ∷ pairs) done (k ∷ ks, value) enough (hn, h) hp =
    let pair : (Text × Text) = (k ∷ ks, value) in
    let more = label_text next ++ write_labels (suc (suc index)) pairs in
    round_continues (suc fuel) k (label_text pair ++ 44 ∷ more) _ more done pair
      (label_start pair (44 ∷ more) hp) (parse_label-text pair (44 ∷ more) hp)
    ∙ rest_read fuel (suc index) pairs (done ++ pair ∷ []) next (omega (arith, enough)) h hn
    ∙ ap (λ l. some (some l)) (append_assoc done (pair ∷ []) (next ∷ pairs))

label_text-long : (pair : Text × Text) → 1 ≤ length (label_text pair)
unfolding label_text
label_text-long (name, value) =
    let total = length-append name (61 ∷ (34 ∷ (escape_label_value value ++ 34 ∷ []))) in
    rw (total) (omega arith)

length-write_labels :
    (index : ℕ) (pairs : List (Text × Text)) → length pairs ≤ length (write_labels index pairs)
unfolding write_labels
length-write_labels index [] = omega arith
length-write_labels index (pair ∷ pairs) =
    let opened : (length (write_labels index (pair ∷ pairs))
        ≡ length (comma index ++ (label_text pair ++ write_labels (suc index) pairs))) =
      refl in
    omega (
      arith,
      opened,
      length-append (comma index) (label_text pair ++ write_labels (suc index) pairs),
      length-append (label_text pair) (write_labels (suc index) pairs),
      label_text-long pair,
      length-write_labels (suc index) pairs,
    )

-- The console reads back the labels that the exporter writes: all of them, in their order, with their values.
pub parse_labels-write_labels :
    (pairs : List (Text × Text))
    → All Named pairs
    → parse_labels (write_labels 0 pairs) ≡ some pairs
unfolding parse_labels write_labels
parse_labels-write_labels [] h = refl
parse_labels-write_labels (pair ∷ pairs) (hp, h) = ap returned (
    rest_read (length (write_labels 0 (pair ∷ pairs))) 0 pairs [] pair
      (omega (arith, length-write_labels 0 (pair ∷ pairs))) h hp)
