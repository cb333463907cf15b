-- ===== src/History/Sampler/Health.antt =====
-- `Health` and `AgentHealth` of crates/console-server/src/history/sampler.rs.
pub mod Laws
use muser_console.Base.{
  ℕ, Bool, true, false, ◌==◌, ltb, Text, List, [], ◌∷◌, ◌++◌, Option, none, some, if◌then◌else◌,
}
use muser_console.Catalog.Agents.{max_agent_gpus}

pub record Health : Type 0 where
  pub up : Option Bool

abbrev pub new_health : Health
new_health = record { up = none }

-- the lines logged, without the subject
pub data Event : Type 0 where
  recovered : Event
  unavailable : Text → Event

-- `Result<(), &str>`
pub data Outcome : Type 0 where
  ok : Outcome
  err : Text → Outcome

abbrev pub is_ok : Outcome → Bool
is_ok ok = true
is_ok (err reason) = false

abbrev pub same_state : Option Bool → Bool → Bool
same_state (some true) true = true
same_state (some false) false = true
same_state _ _ = false

unfoldable pub note : Health → Outcome → Health × List Event
note health outcome =
    let up = is_ok outcome in
    if same_state health.up up then (health, []) else (
      record { up = some up },
      elim outcome [
        | ok ↦ elim health.up [ none ↦ [] | some _ ↦ recovered ∷ [] ]
        | err reason ↦ unavailable reason ∷ []
      ],
    )

-- a tracker over the outcomes of one upstream
unfoldable pub note_all : Health → List Outcome → Health × List Event
unfolding note
note_all health [] = (health, [])
note_all health (outcome ∷ outcomes) =
    let (health', events) = note health outcome in
    let (last_health, more) = note_all health' outcomes in (last_health, events ++ more)

pub record AgentHealth : Type 0 where
  pub reach : Health
  pub overflowing : Option Bool

abbrev pub new_agent_health : AgentHealth
new_agent_health = record { reach = new_health; overflowing = none }

pub data Overflow : Type 0 where
  dropping : ℕ → Overflow
  within : Overflow

abbrev pub was_overflowing : Option Bool → Bool
was_overflowing (some true) = true
was_overflowing _ = false

unfoldable pub note_overflow : AgentHealth → ℕ → AgentHealth × List Overflow
note_overflow health gpus_seen =
    let overflowing = ltb max_agent_gpus gpus_seen in
    if same_state health.overflowing overflowing then (health, []) else (
      record health { overflowing = some overflowing },
      if overflowing
          then dropping gpus_seen ∷ []
          else if was_overflowing health.overflowing
          then within ∷ []
          else [],
    )
