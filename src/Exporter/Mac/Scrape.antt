-- ===== src/Exporter/Mac/Scrape.antt =====
-- The cache of one reading, agents/mac-exporter/src/exporter.rs. Instants and durations are nanoseconds;
-- what the source answers is an argument.
pub mod Laws
use muser_console.Base.{
  ℕ, ◌+◌, ◌-◌, Bool, true, false, ltb, Text, codes, List, [], ◌∷◌, ◌++◌, Option, none, some,
  if◌then◌else◌,
}
use muser_console.Float.{Float}
use muser_console.Exporter.Mac.Parse.{Reading, is_empty, parse_powermetrics}

abbrev pub max_reading_age : ℕ
max_reading_age = 500000000

-- `SourceError`, by what the scrape asks of it
pub record SourceError : Type 0 where
  pub detail : Text
  pub category : Text

-- `*last != Some(up)`
abbrev pub is_news : Option Bool → Bool → Bool
is_news (some true) true = false
is_news (some false) false = false
is_news _ _ = true

module _ (float : Float) where
  -- `Sample` of agents/mac-exporter/src/source.rs
  pub record Sample : Type 0 where
    pub text : Text
    pub completed_unix_s : Option float.F64
    pub completed_at : ℕ

  pub data Outcome : Type 0 where
    sampled : Sample → Outcome
    failed : SourceError → Outcome

  pub record Cached : Type 0 where
    pub reading : Reading float
    pub completed_unix_s : Option float.F64
    pub completed_at : ℕ

  pub record Served : Type 0 where
    pub reading : Reading float
    pub completed_unix_s : Option float.F64
    pub age : ℕ

  pub record Scrape : Type 0 where
    pub up : Bool
    pub duration : ℕ
    pub served : Option Served
    pub failure : Option Text

  -- The state behind the mutexes, with the lines that were logged.
  pub record Exporter : Type 0 where
    pub max_age : ℕ
    pub cached : Option Cached
    pub last_up : Option Bool
    pub logged : ℕ
    pub log : List Text

  unfoldable pub fresh_reading : Exporter → ℕ → Option Served
  fresh_reading s now = elim s.cached [
    | none ↦ none
    | some c ↦
        if ltb s.max_age (now - c.completed_at)
        then none
        else some (record {
          reading = c.reading;
          completed_unix_s = c.completed_unix_s;
          age = now - c.completed_at;
        })
  ]

  unfoldable pub note_state : Exporter → Bool → Text → Exporter
  note_state s up message =
      if is_news s.last_up up
      then record s { last_up = some up; logged = s.logged + 1; log = s.log ++ message ∷ [] }
      else s

  abbrev pub reused : ℕ → ℕ → Served → Scrape
  reused started ended served = record {
    up = true;
    duration = ended - started;
    served = some served;
    failure = none;
  }

  abbrev pub available : Reading float → Text
  available reading =
      if is_empty float reading
      then codes
          "powermetrics ran but printed none of the power lines this exporter recognizes; publishing no power series"
      else codes "powermetrics reading available"

  -- The scrape once it holds the lock and has found nothing fresh, at the instant `ended`.
  unfoldable pub measured : Exporter → ℕ → ℕ → Outcome → Exporter × Scrape
  unfolding note_state parse_powermetrics
  measured s started ended (sampled x) =
      let reading = parse_powermetrics float x.text in
      let kept : Cached = record {
        reading = reading;
        completed_unix_s = x.completed_unix_s;
        completed_at = x.completed_at;
      } in
      (
        note_state (record s { cached = some kept }) true (available reading),
        reused started ended (record {
          reading = reading;
          completed_unix_s = x.completed_unix_s;
          age = ended - x.completed_at;
        }),
      )
  measured s started ended (failed error) = (
    note_state s false (codes "no reading: " ++ (error.detail ++ codes " (publishing nothing)")),
    record { up = false; duration = ended - started; served = none; failure = some error.category },
  )

  -- The second look, under the lock, and the measurement.
  unfoldable pub locked : Exporter → ℕ → ℕ → ℕ → Outcome → Exporter × Scrape
  unfolding fresh_reading measured
  locked s started now ended outcome = elim (fresh_reading s now) [
    | some served ↦ (s, reused started now served)
    | none ↦ measured s started ended outcome
  ]

  -- A scrape sees the state `s` when it starts and `s'`, which other scrapes may have changed, under the lock.
  -- Without the lock it leaves that state as it is.
  unfoldable pub scrape : Exporter → Exporter → ℕ → ℕ → ℕ → ℕ → Outcome → Exporter × Scrape
  unfolding fresh_reading locked
  scrape s s' started first second ended outcome = elim (fresh_reading s first) [
    | some served ↦ (s', reused started first served)
    | none ↦ locked s' started second ended outcome
  ]
