-- ===== src/State/Types.antt =====
-- The records of crates/console-server/src/state.rs and its constants, times in milliseconds.
use muser_console.Base.{ℕ, Bool, Text, codes, List}
use muser_console.Config.Types.{Config}

abbrev pub ticket_ttl : ℕ
ticket_ttl = 30_000

abbrev pub session_ttl : ℕ
session_ttl = 3_600_000

abbrev pub pairing_ttl : ℕ
pairing_ttl = 120_000

abbrev pub max_pairings_per_session : ℕ
max_pairings_per_session = 5

abbrev pub session_cookie : Text
session_cookie = codes "muser_console_session"

pub data AgentState : Type 0 where
  unknown live unreachable : AgentState

pub record Ticket : Type 0 where
  pub expiry : ℕ
  pub instance_name : Text

pub record Session : Type 0 where
  pub expiry : ℕ
  pub csrf : Text
  pub origin : Text

pub record Pairing : Type 0 where
  pub id : Text
  pub token_hash : List ℕ
  pub issuer_hash : List ℕ
  pub expiry : ℕ
  pub origin : Text

pub record MintedPairing : Type 0 where
  pub id : Text
  pub token : Text

pub data MutationAuthError : Type 0 where
  unauthorized csrf : MutationAuthError

-- The history store is a component of its own; the state says whether there is one.
pub record AppState : Type 0 where
  pub config : Config
  pub tickets : List (Text × Ticket)
  pub sessions : List (Text × Session)
  pub pairings : List Pairing
  pub has_history : Bool
  pub agent_states : List (Text × AgentState)
