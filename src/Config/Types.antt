-- ===== src/Config/Types.antt =====
-- The data of crates/console-server/src/config.rs. The rustls client configurations, which only
-- the transport reads, are left out of the records.
use muser_console.Base.{ℕ, Bool, Text, List, Option, text_eq, find, retain}

pub data AgentKind : Type 0 where
  gx10 mac : AgentKind

-- The listen address: its text, and whether its IP is a loopback one.
pub record SocketAddr : Type 0 where
  pub text : Text
  pub is_loopback : Bool

pub record ConsoleTls : Type 0 where
  pub cert_pem : List ℕ
  pub key_pem : List ℕ

pub record HistoryConfig : Type 0 where
  pub db_path : Text
  pub retention_days : ℕ
  pub enabled : Bool
  pub sample_interval_ms : ℕ

pub record Instance : Type 0 where
  pub name : Text
  pub base_url : Text
  pub authority : Text
  pub api_key : List ℕ
  pub bearer : List ℕ
  pub is_https : Bool

pub record Agent : Type 0 where
  pub name : Text
  pub base_url : Text
  pub authority : Text
  pub instance_name : Text
  pub kind : AgentKind
  pub is_https : Bool

pub record Config : Type 0 where
  pub listen : SocketAddr
  pub tls : Option ConsoleTls
  pub access_key : List ℕ
  pub ui_dir : Text
  pub history : HistoryConfig
  pub instances : List Instance
  pub agents : List Agent

-- `Config::agents_for`
abbrev pub agents_for : Config → Text → List Agent
agents_for c name = retain (λ a. text_eq a.instance_name name) c.agents

-- `AppState::instance`
abbrev pub instance_named : Config → Text → Option Instance
instance_named c name = find (λ i. text_eq i.name name) c.instances
