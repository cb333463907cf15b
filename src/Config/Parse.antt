-- ===== src/Config/Parse.antt =====
-- `Config::parse` of crates/console-server/src/config.rs. The TOML reader is a parameter.
pub mod Loops
pub mod Laws
use muser_console.Base.{
  ℕ, Bool, true, false, not, ◌&&◌, Text, codes, text_eq, List, [], ◌∷◌, ◌++◌, any, Option, none,
  some, is_some, unwrap_or,
}
use muser_console.Config.Types.{
  AgentKind, gx10, mac, SocketAddr, ConsoleTls, HistoryConfig, Instance, Agent, Config,
}
use muser_console.Config.Files.{load_key_file}
use muser_console.Config.Tls.{resolve_console_tls, build_client_tls, build_empty_client_tls}
use muser_console.Config.Entries.{
  RawHistory, RawInstance, RawAgent, Host, anchor, resolve_history, validate_instance,
  validate_agent,
}
use muser_console.Config.Result.{
  bad_toml, bad_listen, no_dashboard, no_instance, duplicate_name, second_agent, Result, ok, err,
  ◌>>=◌, refuse_if, ok_or,
}

pub record RawConfig : Type 0 where
  pub listen : Option Text
  pub tls_cert : Option Text
  pub tls_key : Option Text
  pub access_key_file : Text
  pub ui_dir : Option Text
  pub history : Option RawHistory
  pub instances : List RawInstance
  pub agents : List RawAgent

-- the crates that read the file and the listen address
pub record Readers : Type 0 where
  -- `toml::from_str(text).ok()`
  pub toml : Text → Option RawConfig
  -- `text.parse::<SocketAddr>().ok()`
  pub socket_addr : Text → Option SocketAddr

abbrev pub kind_eq : AgentKind → AgentKind → Bool
kind_eq gx10 gx10 = true
kind_eq mac mac = true
kind_eq _ _ = false

-- the loop over the instances, with those accepted so far
abbrev pub instances_with : Host → Text → List RawInstance → List Instance → Result (List Instance)
instances_with host base_dir [] accepted = ok accepted
instances_with host base_dir (raw ∷ rest) accepted = do
  i ← validate_instance host base_dir raw
  _ ← refuse_if (any (λ (e : Instance). text_eq e.name i.name) accepted) duplicate_name
  instances_with host base_dir rest (accepted ++ i ∷ [])

-- whether an agent is the one of the same kind on the same instance
abbrev pub same_place : Agent → Agent → Bool
same_place agent e = text_eq e.instance_name agent.instance_name && kind_eq e.kind agent.kind

-- the loop over the agents
abbrev pub agents_with : Host → List Instance → List RawAgent → List Agent → Result (List Agent)
agents_with host instances [] accepted = ok accepted
agents_with host instances (raw ∷ rest) accepted = do
  agent ← validate_agent host instances raw
  _ ← refuse_if (any (λ (e : Agent). text_eq e.name agent.name) accepted) duplicate_name
  _ ← refuse_if (any (same_place agent) accepted) second_agent
  agents_with host instances rest (accepted ++ agent ∷ [])

abbrev pub anchored : Host → Text → Option Text → Option Text
anchored host base_dir none = none
anchored host base_dir (some path) = some (anchor host base_dir path)

-- `path.is_file()`, which follows a symlink
abbrev pub is_file_at : Host → Text → Bool
is_file_at host path = elim (host.disk path) [ none ↦ false | some entry ↦ entry.is_file ]

abbrev pub is_empty {ℓ} : {A : Type ℓ} → List A → Bool
is_empty [] = true
is_empty (_ ∷ _) = false

abbrev pub some_of : Option Text → Option Text → Option Text
some_of none b = b
some_of (some a) b = some a

abbrev pub agent_tls : Host → List Agent → Result {0} Unit
agent_tls host agents = elim (any (λ (a : Agent). a.is_https) agents) [
  | true ↦ build_client_tls host.rustls host.disk none
  | false ↦ build_empty_client_tls host.rustls
]

-- the second half of `parse`, on the dashboard, the instances and the agents
unfoldable pub parse_fleet :
    Host
    → Text
    → RawConfig
    → SocketAddr
    → Option ConsoleTls
    → List ℕ
    → HistoryConfig
    → Text
    → Result Config
unfolding validate_instance validate_agent build_client_tls
parse_fleet host base_dir raw listen tls access_key history ui_dir = do
  _ ←
      refuse_if (not (is_file_at host (host.join ui_dir (codes "muser-dashboard.html"))))
        no_dashboard
  _ ← refuse_if (is_empty raw.instances) no_instance
  instances ← instances_with host base_dir raw.instances []
  agents ← agents_with host instances raw.agents []
  _ ← agent_tls host agents
  ok (record {
    listen = listen;
    tls = tls;
    access_key = access_key;
    ui_dir = ui_dir;
    history = history;
    instances = instances;
    agents = agents;
  })

unfoldable pub parse : Host → Readers → Text → Text → Option Text → Result Config
unfolding anchor resolve_console_tls load_key_file resolve_history parse_fleet
parse host readers text base_dir listen_override = do
  raw ← ok_or (readers.toml text) bad_toml
  let listen_text = unwrap_or (some_of listen_override raw.listen) (codes "127.0.0.1:5959")
  listen ← ok_or (readers.socket_addr listen_text) bad_listen
  tls ←
      resolve_console_tls host.disk (anchored host base_dir raw.tls_cert)
        (anchored host base_dir raw.tls_key) listen
  access_key ← load_key_file host.disk (anchor host base_dir raw.access_key_file)
  history ← resolve_history host raw.history base_dir
  let ui_dir = anchor host base_dir (unwrap_or raw.ui_dir (codes "ui"))
  parse_fleet host base_dir raw listen tls access_key history ui_dir
