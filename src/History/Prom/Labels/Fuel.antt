-- ===== src/History/Prom/Labels/Fuel.antt =====
-- The fuel of `parse_labels` is enough: each round of its loop consumes a part of the text.
use muser_console.Base.{
  ℕ, zero, suc, ◌+◌, ◌⊎◌, ◌≤◌, ◌<◌, Bool, true, false, ◌==◌, Bool-cases, Option-cases, Text, List,
  [], ◌∷◌, ◌++◌, length, Option, none, some, ◌≡◌, refl, ap, sym, subst, ◌∙◌, inl, inr, arith,
}
use muser_console.History.Prom.Labels.{
  skip_space, is_ascii_whitespace, take_key, is_key_char, expect, read_value, unescape, push,
  label_after, parse_label, parse_labels_with, returned, parse_labels,
}

skip_space-le : (s : Text) → length (skip_space s) ≤ length s
unfolding skip_space
skip_space-le [] = omega arith
skip_space-le (c ∷ s) = elim (Bool-cases (is_ascii_whitespace c)) [
  | inl e ↦ let rest = skip_space-le s in rw (skip_space, e) (omega (arith, rest))
  | inr e ↦ rw (skip_space, e) (omega arith)
]

take_key-le : (s : Text) → length (take_key s).1 ≤ length s
unfolding take_key
take_key-le [] = omega arith
take_key-le (c ∷ s) = elim (Bool-cases (is_key_char c)) [
  | inl e ↦ let rest = take_key-le s in rw (take_key, e) (omega (arith, rest))
  | inr e ↦ rw (take_key, e) (omega arith)
]

expect-lt : (wanted : ℕ) (s r : Text) → expect wanted s ≡ some r → length r < length s
unfolding expect
expect-lt wanted [] r h = cc
expect-lt wanted (c ∷ s) r h = elim (Bool-cases (c == wanted)) [
  | inl e ↦
      let here : (expect wanted (c ∷ s) ≡ some s) = rw (expect, e) in
      let same : (s ≡ r) = cc (h, here) in rw (same) (omega arith)
  | inr e ↦ let here : (expect wanted (c ∷ s) ≡ none) = rw (expect, e) in absurd (cc (h, here))
]

push-inv :
    (c : ℕ) (o : Option (Text × Text)) (v r : Text)
    → push c o ≡ some (v, r)
    → (w : Text) × (o ≡ some (w, r))
push-inv c none v r h = cc
push-inv c (some (a, b)) v r h = (a, cc h)

read_value-lt :
    (escaped : Bool) (s v r : Text) → read_value escaped s ≡ some (v, r) → length r < length s
unfolding read_value
read_value-lt escaped [] v r h = cc
read_value-lt true (c ∷ s) v r h = elim (Option-cases (unescape c)) [
  | inl e ↦
      let here : (read_value true (c ∷ s) ≡ none) = rw (read_value, e) in absurd (cc (h, here))
  | inr (u, e) ↦
      let here : (read_value true (c ∷ s) ≡ push u (read_value false s)) = rw (read_value, e) in
      let (w, rest) = push-inv u (read_value false s) v r (sym here ∙ h) in
      omega (arith, read_value-lt false s w r rest)
]
read_value-lt false (c ∷ s) v r h = elim (Bool-cases (c == 34)) [
  | inl e ↦
      let here : (read_value false (c ∷ s) ≡ some ([], s)) = rw (read_value, e) in
      let same : (s ≡ r) = cc (h, here) in rw same (omega arith)
  | inr quote ↦ elim (Bool-cases (c == 92)) [
    | inl e ↦
        let here : (read_value false (c ∷ s) ≡ read_value true s) = rw (read_value, quote, e) in
        omega (arith, read_value-lt true s v r (sym here ∙ h))
    | inr e ↦
        let here : (read_value false (c ∷ s) ≡ push c (read_value false s)) =
          rw (read_value, quote, e) in
        let (w, rest) = push-inv c (read_value false s) v r (sym here ∙ h) in
        omega (arith, read_value-lt false s w r rest)
  ]
]

label_after-lt :
    (key s : Text) (label : Text × Text) (r : Text)
    → label_after key s ≡ some (label, r)
    → length r < length s
unfolding label_after
label_after-lt [] s label r h = cc
label_after-lt (k ∷ ks) s label r h = elim (Option-cases (expect 61 (skip_space s))) [
  | inl e ↦
      let here : (label_after (k ∷ ks) s ≡ none) = rw (label_after, e) in absurd (cc (h, here))
  | inr (t, e) ↦ elim (Option-cases (expect 34 (skip_space t))) [
    | inl f ↦
        let here : (label_after (k ∷ ks) s ≡ none) = rw (label_after, e, f) in absurd (cc (h, here))
    | inr (u, f) ↦ elim (Option-cases (read_value false u)) [
      | inl g ↦
          let here : (label_after (k ∷ ks) s ≡ none) = rw (label_after, e, f, g) in
          absurd (cc (h, here))
      | inr ((v, w), g) ↦
          let here : (label_after (k ∷ ks) s ≡ some ((k ∷ ks, v), skip_space w)) =
            rw (label_after, e, f, g) in
          let same : (skip_space w ≡ r) = cc (h, here) in
          let a = expect-lt 61 (skip_space s) t e in
          let b = expect-lt 34 (skip_space t) u f in
          let d = read_value-lt false u v w g in
          subst (λ x. length x < length s) same
            (omega (arith, a, b, d, skip_space-le s, skip_space-le t, skip_space-le w))
    ]
  ]
]

parse_label-lt :
    (s : Text) (label : Text × Text) (r : Text)
    → parse_label s ≡ some (label, r)
    → length r < length s
unfolding parse_label
parse_label-lt s label r h =
    let a = label_after-lt (take_key s).0 (take_key s).1 label r h in
    omega (arith, a, take_key-le s)

list_cases : (s : Text) → (s ≡ []) ⊎ ((c : ℕ) × (t : Text) × (s ≡ (c ∷ t)))
list_cases [] = inl refl
list_cases (c ∷ t) = inr (c, t, refl)

enough_step :
    (fuel : ℕ) (text : Text) (labels : List (Text × Text))
    → length text < suc fuel
    → ((more : Text) (done : List (Text × Text))
        → length more < fuel
        → parse_labels_with (suc fuel) more done ≡ parse_labels_with fuel more done)
    → parse_labels_with (suc (suc fuel)) text labels ≡ parse_labels_with (suc fuel) text labels
unfolding parse_labels_with
enough_step fuel text labels h again = elim (list_cases (skip_space text)) [
  | inl e ↦ rw (parse_labels_with, e)
  | inr (c, s, e) ↦ elim (Option-cases (parse_label (c ∷ s))) [
    | inl f ↦ rw (parse_labels_with, e, f)
    | inr ((label, rest), f) ↦ elim (list_cases rest) [
      | inl g ↦ rw (parse_labels_with, e, f, g)
      | inr (d, more, g) ↦ elim (Bool-cases (d == 44)) [
        | inr x ↦ rw (parse_labels_with, e, f, g, x)
        | inl x ↦
            let shorter = parse_label-lt (c ∷ s) label rest f in
            let tail : (length rest ≡ suc (length more)) = rw g refl in
            let open_text : (length (skip_space text) ≡ suc (length s)) = rw e refl in
            rw (parse_labels_with, e, f, g, x)
              (again more (labels ++ label ∷ [])
                (omega (arith, h, shorter, tail, open_text, skip_space-le text)))
      ]
    ]
  ]
]

more_fuel :
    (fuel : ℕ) (text : Text) (labels : List (Text × Text))
    → length text < fuel
    → parse_labels_with (suc fuel) text labels ≡ parse_labels_with fuel text labels
more_fuel zero text labels h = absurd (omega (arith, h))
more_fuel (suc fuel) text labels h = enough_step fuel text labels h (more_fuel fuel)

ends_step :
    (fuel : ℕ) (text : Text) (labels : List (Text × Text))
    → length text < suc fuel
    → ((more : Text) (done : List (Text × Text))
        → length more < fuel
        → (value : Option (List (Text × Text))) × (parse_labels_with fuel more done ≡ some value))
    → (value : Option (List (Text × Text))) × (parse_labels_with (suc fuel) text labels
        ≡ some value)
unfolding parse_labels_with
ends_step fuel text labels h again = elim (list_cases (skip_space text)) [
  | inl e ↦ (some labels, rw (parse_labels_with, e))
  | inr (c, s, e) ↦ elim (Option-cases (parse_label (c ∷ s))) [
    | inl f ↦ (none, rw (parse_labels_with, e, f))
    | inr ((label, rest), f) ↦ elim (list_cases rest) [
      | inl g ↦ (some (labels ++ label ∷ []), rw (parse_labels_with, e, f, g))
      | inr (d, more, g) ↦ elim (Bool-cases (d == 44)) [
        | inr x ↦ (none, rw (parse_labels_with, e, f, g, x))
        | inl x ↦
            let shorter = parse_label-lt (c ∷ s) label rest f in
            let tail : (length rest ≡ suc (length more)) = rw g refl in
            let open_text : (length (skip_space text) ≡ suc (length s)) = rw e refl in
            let (value, ended) =
              again more (labels ++ label ∷ [])
                (omega (arith, h, shorter, tail, open_text, skip_space-le text)) in
            (value, rw (parse_labels_with, e, f, g, x) ended)
      ]
    ]
  ]
]

ends :
    (fuel : ℕ) (text : Text) (labels : List (Text × Text))
    → length text < fuel
    → (value : Option (List (Text × Text))) × (parse_labels_with fuel text labels ≡ some value)
ends zero text labels h = absurd (omega (arith, h))
ends (suc fuel) text labels h = ends_step fuel text labels h (ends fuel)

with_extra :
    (extra : ℕ) (text : Text)
    → parse_labels_with (extra + suc (length text)) text []
      ≡ parse_labels_with (suc (length text)) text []
with_extra zero text = ap (λ f. parse_labels_with f text []) (the_fuel (length text))
  where
    the_fuel : (n : ℕ) → 0 + suc n ≡ suc n
    the_fuel n = omega arith
with_extra (suc extra) text =
    ap (λ f. parse_labels_with f text []) (the_fuel extra (length text))
    ∙ more_fuel (extra + suc (length text)) text [] (omega arith)
    ∙ with_extra extra text
  where
    the_fuel : (m n : ℕ) → suc m + suc n ≡ suc (m + suc n)
    the_fuel m n = omega arith

-- The loop of `parse_labels` comes to its end on every text, well-formed or not: with as many rounds as the
-- text has characters and one more, or with any more than that, it has returned, and what it returned is the
-- value of `parse_labels`. A loop that is still running would show itself as `none`.
pub parse_labels-enough :
    (extra : ℕ) (text : Text)
    → parse_labels_with (extra + suc (length text)) text [] ≡ some (parse_labels text)
unfolding parse_labels
parse_labels-enough extra text =
    let (value, ended) = ends (suc (length text)) text [] (omega arith) in
    with_extra extra text ∙ ended ∙ ap some (sym (ap returned ended))
