-- ===== src/Routes/Fleet.antt =====
-- The fleet listing of crates/console-server/src/routes.rs.
use muser_console.Base.{ℕ, suc, ◌==◌, Bool, Text, codes, List, [], ◌∷◌, unwrap_or}
use muser_console.Config.Types.{AgentKind, Instance, Agent, agents_for}
use muser_console.Config.Types
use muser_console.Http.{Http, Request}
use muser_console.State.Types.{AppState, AgentState, unknown, live, unreachable}
use muser_console.State.Maps.{map_get}
use muser_console.Reply.{
  Value, Values, string, boolean, array, object, no_item, item, no_field, field, Response,
  json_response, read_rejection, unless_rejected,
}

-- `AgentKind::as_str` and `AgentState::as_str`
abbrev pub kind_text : AgentKind → Text
kind_text Types.gx10 = codes "gx10"
kind_text Types.mac = codes "mac"

abbrev pub state_text : AgentState → Text
state_text unknown = codes "unknown"
state_text live = codes "live"
state_text unreachable = codes "unreachable"

-- `AppState::agent_state`
abbrev pub agent_state : AppState → Text → AgentState
agent_state s agent = unwrap_or (map_get agent s.agent_states) unknown

abbrev pub agent_value : AppState → Agent → Value
agent_value s agent = object (
    field (codes "name") (string agent.name) (
      field (codes "kind") (string (kind_text agent.kind))
        (field (codes "state") (string (state_text (agent_state s agent.name))) no_field)))

abbrev pub agent_values : AppState → List Agent → Values
agent_values s [] = no_item
agent_values s (a ∷ agents) = item (agent_value s a) (agent_values s agents)

abbrev pub instance_value : AppState → Bool → Instance → Value
instance_value s is_default i = object (
    field (codes "name") (string i.name) (
      field (codes "authority") (string i.authority) (
        field (codes "default") (boolean is_default)
          (field (codes "agents") (array (agent_values s (agents_for s.config i.name))) no_field))))

-- the instances in order, from the index on at which the list stands
abbrev pub instance_values : AppState → ℕ → List Instance → Values
instance_values s index [] = no_item
instance_values s index (i ∷ instances) =
    item (instance_value s (index == 0) i) (instance_values s (suc index) instances)

abbrev pub listing : AppState → Value
listing s =
    object (field (codes "instances") (array (instance_values s 0 s.config.instances)) no_field)

unfoldable pub fleet : Http → AppState → Request → ℕ → AppState × Response
unfolding read_rejection
fleet http s request now =
    unless_rejected (read_rejection http s request.headers now) (λ response. response)
      (λ s'. (s', json_response 200 (listing s')))
