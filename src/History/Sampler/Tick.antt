-- ===== src/History/Sampler/Tick.antt =====
-- A tick of `instance_loop` and `collect_agent_tick` of crates/console-server/src/history/sampler.rs, and of
-- the states of agents in crates/console-server/src/state.rs. What the upstreams answered comes with the tick:
-- the document, already UTF-8 or JSON, or the reason why there is none.
pub mod Laws
use muser_console.Base.{
  ℕ, Text, text_eq, List, [], ◌∷◌, ◌++◌, map, Option, none, some, unwrap_or, if◌then◌else◌,
}
use muser_console.Float.{Float}
use muser_console.State.Maps.{map_get, map_insert}
use muser_console.State.Types.{AgentState, live, unreachable}
use muser_console.History.Table.{Sample}
use muser_console.History.Json.{Json}
use muser_console.History.Sampler.Health.{
  Health, new_health, Event, Outcome, ok, err, note, AgentHealth, new_agent_health, Overflow,
  note_overflow,
}
use muser_console.History.Sampler.Engine.{
  Carry, new_carry, collect_metrics, collect_snapshot, gate_optional_features,
}
use muser_console.History.Sampler.Agents.{collect_agent}

-- `Result<T, String>`
pub data Fetched {ℓ} (A : Type ℓ) : Type ℓ where
  got : A → Fetched A
  failed : Text → Fetched A

abbrev pub outcome_of {ℓ} : {A : Type ℓ} → Fetched A → Outcome
outcome_of (got a) = ok
outcome_of (failed reason) = err reason

abbrev pub got_value {ℓ} : {A : Type ℓ} → Fetched A → Option A
got_value (got a) = some a
got_value (failed reason) = none

-- a line that a tick logs
pub data Line : Type 0 where
  engine_metrics : Event → Line
  engine_snapshot : Event → Line
  agent_reach : Text → Event → Line
  agent_devices : Text → Overflow → Line

-- an agent of the instance, and the answer of its exporter
pub record AgentBody : Type 0 where
  pub name : Text
  pub body : Fetched Text

module _ (float : Float) (json : Json float) where
  pub record Sampler : Type 0 where
    pub carry : Carry float
    pub metrics_health : Health
    pub snapshot_health : Health
    pub agent_health : List (Text × AgentHealth)
    pub agent_states : List (Text × AgentState)
    pub lines : List Line

  abbrev pub new_sampler : Sampler
  new_sampler = record {
    carry = new_carry float;
    metrics_health = new_health;
    snapshot_health = new_health;
    agent_health = [];
    agent_states = [];
    lines = [];
  }

  unfoldable pub metrics_part :
      Fetched Text → Text → ℕ → Sampler × List (Sample float) → Sampler × List (Sample float)
  unfolding note collect_metrics
  metrics_part fetched name ts_ms (s, batch) =
      let (health, events) = note s.metrics_health (outcome_of fetched) in
      let logged = record s {
        metrics_health = health;
        lines = s.lines ++ map engine_metrics events;
      } in
      elim fetched [
        | got text ↦
            let (carry', batch') = collect_metrics float text name ts_ms s.carry batch in
            (record logged { carry = carry' }, batch')
        | failed reason ↦ (logged, batch)
      ]

  unfoldable pub snapshot_part :
      Fetched json.Value → Text → ℕ → Sampler × List (Sample float) → Sampler × List (Sample float)
  unfolding note collect_snapshot
  snapshot_part fetched name ts_ms (s, batch) =
      let (health, events) = note s.snapshot_health (outcome_of fetched) in
      let logged = record s {
        snapshot_health = health;
        lines = s.lines ++ map engine_snapshot events;
      } in
      elim fetched [
        | got document ↦
            let (carry', batch') = collect_snapshot float json document name ts_ms s.carry batch in
            (record logged { carry = carry' }, batch')
        | failed reason ↦ (logged, batch)
      ]

  -- `agent_health.entry(name).or_default()`, then `collect_agent_tick`
  unfoldable pub collect_agent_tick :
      AgentBody → Text → ℕ → Sampler × List (Sample float) → Sampler × List (Sample float)
  unfolding note collect_agent note_overflow
  collect_agent_tick a name ts_ms (s, batch) =
      let health = unwrap_or (map_get a.name s.agent_health) new_agent_health in
      let (reach, events) = note health.reach (outcome_of a.body) in
      let reached = record health { reach = reach } in
      let logged = s.lines ++ map (agent_reach a.name) events in
      elim a.body [
        | got text ↦
            let (gpus_seen, batch') = collect_agent float text name ts_ms batch in
            let (health', overflow) = note_overflow reached gpus_seen in
            (
              record s {
                agent_states = map_insert a.name live s.agent_states;
                agent_health = map_insert a.name health' s.agent_health;
                lines = logged ++ map (agent_devices a.name) overflow;
              },
              batch',
            )
        | failed reason ↦ (
          record s {
            agent_states = map_insert a.name unreachable s.agent_states;
            agent_health = map_insert a.name reached s.agent_health;
            lines = logged;
          },
          batch,
        )
      ]

  unfoldable pub agent_parts :
      List AgentBody → Text → ℕ → Sampler × List (Sample float) → Sampler × List (Sample float)
  unfolding collect_agent_tick
  agent_parts [] name ts_ms state = state
  agent_parts (a ∷ agents) name ts_ms state =
      agent_parts agents name ts_ms (collect_agent_tick a name ts_ms state)

  -- The body of the loop: the batch is what `store.write` is given.
  unfoldable pub tick :
      Fetched Text
      → Fetched json.Value
      → List AgentBody
      → Text
      → ℕ
      → Sampler
      → Sampler × List (Sample float)
  unfolding metrics_part snapshot_part gate_optional_features agent_parts
  tick metrics document agents name ts_ms s =
      let (s', batch) =
        snapshot_part document name ts_ms (metrics_part metrics name ts_ms (s, [])) in
      agent_parts agents name ts_ms
        (s', gate_optional_features float json (got_value document) batch)
