-- ===== src/Exporter/Gx10/Document.antt =====
-- The console's parser, crates/console-server/src/history/prom.rs, on a document with the lines and the
-- comments of agents/gx10-exporter/src/expo.rs.
use muser_console.Base.{
  ℕ, Bool, true, false, not, ◌==◌, all, Bool-cases, Option-cases, and_split, Text, codes, List, [],
  ◌∷◌, ◌++◌, reverse, append_assoc, append-nil, none, ◌≡◌, refl, ◌∙◌, sym, ap, inl, inr, arith, All,
  trim, trim_start, is_whitespace,
}
use mathlib.Core.List.{reverse-cons, reverse-append}
use muser_console.Float.{Float}
use muser_console.History.Prom.{Sample, filter_map, parse_line, lines, lines_with, drop_return}
use muser_console.Exporter.Mac.Reads.{all-append}
use muser_console.Exporter.Gx10.{header_line, ended_lines, family}

-- not a line feed
abbrev pub feedless : ℕ → Bool
feedless c = not (c == 10)

-- a line that `lines` gives back as it is
abbrev pub IsLine : Text → Type 0
IsLine line = (all feedless line ≡ true) × (drop_return line ≡ line)

lines_with-ends :
    (done line rest : Text)
    → all feedless line ≡ true
    → lines_with done (line ++ 10 ∷ rest) ≡ (drop_return (done ++ line) ∷ lines_with [] rest)
unfolding lines_with
lines_with-ends [] [] rest h = refl
lines_with-ends (d ∷ done) [] rest h =
    ap (λ s. drop_return s ∷ lines_with [] rest) (sym (append-nil (d ∷ done)))
lines_with-ends done (c ∷ line) rest h =
    let (hc, hs) = and_split (feedless c) (all feedless line) h in
    let stays : ((c == 10) ≡ false) = ground (arith, hc) in
    rw (lines_with, stays)
      (lines_with-ends (done ++ c ∷ []) line rest hs
        ∙ ap (λ s. drop_return s ∷ lines_with [] rest) (append_assoc done (c ∷ []) line))

trim_start-kept : (s : Text) → (t : Text) × (trim_start (s ++ 35 ∷ []) ≡ (t ++ 35 ∷ []))
trim_start-kept [] = ([], refl)
trim_start-kept (c ∷ s) = elim (Bool-cases (is_whitespace c)) [
  | inl e ↦ let (t, h) = trim_start-kept s in (t, rw (trim_start, e) h)
  | inr e ↦ (c ∷ s, rw (trim_start, e) refl)
]

drop_return-comment : (s : Text) → (t : Text) × (drop_return (35 ∷ s) ≡ (35 ∷ t))
drop_return-comment [] = ([], refl)
drop_return-comment (d ∷ s) = (drop_return (d ∷ s), refl)

trim-comment : (s : Text) → (t : Text) × (trim (35 ∷ s) ≡ (35 ∷ t))
trim-comment s =
    let (t, kept) = trim_start-kept (reverse s) in
    (
      reverse t,
      ap (λ u. reverse (trim_start u)) (reverse-cons 35 s)
          ∙ ap reverse kept
          ∙ reverse-append t (35 ∷ []),
    )

header_line-append :
    (keyword name what rest : Text)
    → (header_line keyword name what ++ rest)
      ≡ (35 ∷ ((32 ∷ (keyword ++ (32 ∷ (name ++ (32 ∷ what))))) ++ 10 ∷ rest))
header_line-append keyword name what rest =
    ap (λ s. 35 ∷ (32 ∷ s))
      (append_assoc keyword (32 ∷ (name ++ (32 ∷ (what ++ 10 ∷ [])))) rest
        ∙ ap (λ s. keyword ++ (32 ∷ s)) (append_assoc name (32 ∷ (what ++ 10 ∷ [])) rest)
        ∙ ap (λ s. keyword ++ (32 ∷ (name ++ (32 ∷ s)))) (append_assoc what (10 ∷ []) rest)
        ∙ ap (λ s. keyword ++ (32 ∷ s)) (sym (append_assoc name (32 ∷ what) (10 ∷ rest)))
        ∙ sym (append_assoc keyword (32 ∷ (name ++ (32 ∷ what))) (10 ∷ rest)))

module _ (float : Float) where
  parse_line-comment : (s : Text) → parse_line float (35 ∷ s) ≡ none
  unfolding parse_line
  parse_line-comment s = let (t, e) = trim-comment s in rw (parse_line, e) refl

  -- what the console reads from a document
  abbrev pub read : Text → List (Sample float)
  read t = filter_map (parse_line float) (lines t)

  pub read-comment :
      (s rest : Text) → all feedless s ≡ true → read (35 ∷ (s ++ 10 ∷ rest)) ≡ read rest
  unfolding lines parse_line
  read-comment s rest h =
      let (t, dropped) = drop_return-comment s in
      rw (lines_with-ends [] (35 ∷ s) rest h, dropped, parse_line-comment t) refl

  read-line :
      (line rest : Text)
      → IsLine line
      → read (line ++ 10 ∷ rest) ≡ filter_map (parse_line float) (line ∷ lines rest)
  unfolding lines parse_line
  read-line line rest (feed, return) = rw (lines_with-ends [] line rest feed, return) refl

  read-ended_lines :
      (ls : List Text) (rest : Text)
      → All IsLine ls
      → read (ended_lines ls ++ rest) ≡ (filter_map (parse_line float) ls ++ read rest)
  unfolding lines parse_line
  read-ended_lines [] rest h = refl
  read-ended_lines (line ∷ ls) rest (hl, hs) =
      let behind = read-ended_lines ls rest hs in
      ap read (append_assoc line (10 ∷ ended_lines ls) rest)
      ∙ read-line line (ended_lines ls ++ rest) hl
      ∙ elim (Option-cases (parse_line float line)) [
        | inl e ↦ rw (filter_map, e) behind
        | inr (s, e) ↦ rw (filter_map, e) (ap (◌∷◌ s) behind)
      ]

  read-header_line :
      (keyword name what rest : Text)
      → all feedless keyword ≡ true
      → all feedless name ≡ true
      → all feedless what ≡ true
      → read (header_line keyword name what ++ rest) ≡ read rest
  read-header_line keyword name what rest hk hn hw =
      let words = 32 ∷ (keyword ++ (32 ∷ (name ++ (32 ∷ what)))) in
      ap read (header_line-append keyword name what rest)
      ∙ read-comment words rest (
          all-append feedless keyword (32 ∷ (name ++ (32 ∷ what))) hk
            (all-append feedless name (32 ∷ what) hn hw))

  -- A family whose metric and help have no line feed is read as its lines.
  pub read-family :
      (name help kind : Text) (ls : List Text) (rest : Text)
      → all feedless name ≡ true
      → all feedless help ≡ true
      → all feedless kind ≡ true
      → All IsLine ls
      → read (family name help kind ls ++ rest) ≡ (filter_map (parse_line float) ls ++ read rest)
  unfolding family
  read-family name help kind [] rest hn hh hk hs = refl
  read-family name help kind (line ∷ ls) rest hn hh hk hs =
      let body = ended_lines (line ∷ ls) in
      let type_line = header_line (codes "TYPE") name kind in
      ap read (append_assoc (header_line (codes "HELP") name help) (type_line ++ body) rest)
      ∙ read-header_line (codes "HELP") name help ((type_line ++ body) ++ rest) refl hn hh
      ∙ ap read (append_assoc type_line body rest)
      ∙ read-header_line (codes "TYPE") name kind (body ++ rest) refl hn hk
      ∙ read-ended_lines (line ∷ ls) rest hs
