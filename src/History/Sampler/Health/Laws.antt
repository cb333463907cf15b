-- ===== src/History/Sampler/Health/Laws.antt =====
-- One line for one change: the trackers of crates/console-server/src/history/sampler.rs.
use muser_console.Base.{
  Bool, true, false, not, List, [], ◌∷◌, ◌++◌, append-nil, append_assoc, last, Option, none, some,
  ◌≡◌, ◌∙◌, refl, sym, ap,
}
use muser_console.History.Sampler.Health.{
  Health, Event, recovered, unavailable, Outcome, ok, err, is_ok, note, note_all,
}

-- Lines that take turns: after a failure only a recovery is logged, after a recovery only a failure.
abbrev pub Alternates : Bool → List Event → Type 0
Alternates expects [] = Unit
Alternates true (recovered ∷ events) = Alternates false events
Alternates false (unavailable reason ∷ events) = Alternates true events
Alternates true (unavailable reason ∷ events) = ⊥
Alternates false (recovered ∷ events) = ⊥

-- whether the next line of the tracker is a recovery
abbrev pub is_down : Health → Bool
is_down health = elim health.up [ none ↦ false | some up ↦ elim up [ true ↦ false | false ↦ true ] ]

Alternates-from :
    (up : Option Bool) (outcomes : List Outcome)
    → Alternates (is_down (record { up = up })) (note_all (record { up = up }) outcomes).1
unfolding note_all note
Alternates-from up [] = tt
Alternates-from none (ok ∷ outcomes) = Alternates-from (some true) outcomes
Alternates-from none (err reason ∷ outcomes) = Alternates-from (some false) outcomes
Alternates-from (some true) (ok ∷ outcomes) = Alternates-from (some true) outcomes
Alternates-from (some true) (err reason ∷ outcomes) = Alternates-from (some false) outcomes
Alternates-from (some false) (ok ∷ outcomes) = Alternates-from (some true) outcomes
Alternates-from (some false) (err reason ∷ outcomes) = Alternates-from (some false) outcomes

-- However often an upstream fails, the lines alternate.
note_all-Alternates :
    (health : Health) (outcomes : List Outcome)
    → Alternates (is_down health) (note_all health outcomes).1
note_all-Alternates health outcomes = Alternates-from health.up outcomes

-- whether the upstream was known to be down behind these outcomes: the last of them failed, or there was none
-- and the tracker says so
abbrev pub was_down : Health → List Outcome → Bool
was_down health outcomes = elim (last outcomes) [ none ↦ is_down health | some o ↦ not (is_ok o) ]

-- the line that a change asks for
abbrev pub line_for : Bool → Outcome → List Event
line_for true ok = recovered ∷ []
line_for false ok = []
line_for true (err reason) = []
line_for false (err reason) = unavailable reason ∷ []

note-line :
    (up : Option Bool) (o : Outcome)
    → (note (record { up = up }) o).1 ≡ line_for (is_down (record { up = up })) o
unfolding note
note-line none ok = refl
note-line none (err reason) = refl
note-line (some true) ok = refl
note-line (some true) (err reason) = refl
note-line (some false) ok = refl
note-line (some false) (err reason) = refl

note-is_down :
    (up : Option Bool) (o : Outcome) → is_down (note (record { up = up }) o).0 ≡ not (is_ok o)
unfolding note
note-is_down none ok = refl
note-is_down none (err reason) = refl
note-is_down (some true) ok = refl
note-is_down (some true) (err reason) = refl
note-is_down (some false) ok = refl
note-is_down (some false) (err reason) = refl

-- behind an outcome the tracker's start does not matter
was_down-cons :
    (h h' : Health) (y : Outcome) (os : List Outcome) → was_down h (y ∷ os) ≡ was_down h' (y ∷ os)
was_down-cons h h' y [] = refl
was_down-cons h h' y (z ∷ os) = was_down-cons h h' z os

-- The tracker logs exactly the changes: behind any outcomes, a failure adds its line with its reason if the
-- upstream was not known to be down, a success adds a recovery if it was, and nothing else adds a line. Before
-- the first outcome a new tracker does not know the upstream to be down. So the lines alternate.
pub note_all-logs :
    (health : Health) (before : List Outcome) (o : Outcome)
    → ((note_all health (before ++ o ∷ [])).1
        ≡ ((note_all health before).1 ++ line_for (was_down health before) o))
      × Alternates (is_down health) (note_all health (before ++ o ∷ [])).1
unfolding note_all
note_all-logs health before o = (go health before, note_all-Alternates health (before ++ o ∷ []))
  where
    go :
        (h : Health) (os : List Outcome)
        → (note_all h (os ++ o ∷ [])).1 ≡ ((note_all h os).1 ++ line_for (was_down h os) o)
    go h [] = append-nil (note h o).1 ∙ note-line h.up o
    go h (x ∷ []) =
        rw
          (
            append-nil (note h x).1,
            append-nil (note (note h x).0 o).1,
            note-line (note h x).0.up o,
            note-is_down h.up x,
          )
          refl
    go h (x ∷ (y ∷ os)) =
        ap (◌++◌ (note h x).1) (
          go (note h x).0 (y ∷ os)
          ∙ ap (λ d. (note_all (note h x).0 (y ∷ os)).1 ++ line_for d o)
              (was_down-cons (note h x).0 h y os))
        ∙ sym (
            append_assoc (note h x).1 (note_all (note h x).0 (y ∷ os)).1
              (line_for (was_down h (x ∷ (y ∷ os))) o))
