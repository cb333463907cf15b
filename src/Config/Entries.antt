-- ===== src/Config/Entries.antt =====
-- The entries of the configuration file and their validation one by one, in
-- crates/console-server/src/config.rs: `validate_instance`, `validate_agent` and `HistoryConfig::resolve`.
pub mod Laws
use muser_console.Base.{
  ℕ, Bool, true, false, not, ◌==◌, ◌&&◌, Text, codes, text_eq, List, [], ◌∷◌, ◌++◌, any, Option,
  none, some, is_some, unwrap_or, if◌then◌else◌, map,
}
use muser_console.Config.Types.{AgentKind, gx10, mac, HistoryConfig, Instance, Agent}
use muser_console.Config.Files.{Disk, load_key_file}
use muser_console.Config.Tls.{Rustls, build_client_tls, build_empty_client_tls}
use muser_console.Config.Url.{Net, valid_name, validate_base_url}
use muser_console.Config.Result.{
  bad_key, no_retention, bad_name, ca_without_https, bad_kind, unknown_instance, Result, ok, err,
  ◌>>=◌, refuse_if, ok_or,
}

pub record RawHistory : Type 0 where
  pub db_path : Option Text
  pub retention_days : Option ℕ
  pub enabled : Option Bool

pub record RawInstance : Type 0 where
  pub name : Text
  pub base_url : Text
  pub api_key_file : Text
  pub ca_file : Option Text

pub record RawAgent : Type 0 where
  pub name : Text
  pub base_url : Text
  pub instance_name : Text
  pub kind : Text

-- What surrounds the server: the disk, the paths of the system, and the crates that read addresses,
-- certificates and header values.
pub record Host : Type 0 where
  pub disk : Disk
  pub is_absolute : Text → Bool
  pub join : Text → Text → Text
  pub net : Net
  pub rustls : Rustls
  -- `HeaderValue::from_bytes(bytes).ok()`
  pub header_bytes : List ℕ → Option (List ℕ)

unfoldable pub anchor : Host → Text → Text → Text
anchor host base_dir path = if host.is_absolute path then path else host.join base_dir path

-- `AgentKind::parse`
unfoldable pub parse_kind : Text → Option AgentKind
parse_kind t =
    if text_eq t (codes "gx10")
    then some gx10
    else if text_eq t (codes "mac")
    then some mac
    else none

unfoldable pub resolve_history : Host → Option RawHistory → Text → Result HistoryConfig
unfolding anchor
resolve_history host given base_dir =
    let raw : RawHistory =
      unwrap_or given (record { db_path = none; retention_days = none; enabled = none }) in
    let retention_days = unwrap_or raw.retention_days 7 in
    refuse_if (retention_days == 0) no_retention >>= λ _. ok (record {
      db_path = anchor host base_dir (unwrap_or raw.db_path (codes "console-history.sqlite"));
      retention_days = retention_days;
      enabled = unwrap_or raw.enabled true;
      sample_interval_ms = 1000;
    })

abbrev pub instance_tls : Host → Text → Option Text → Bool → Result {0} Unit
instance_tls host base_dir ca_file true =
    build_client_tls host.rustls host.disk
      (elim ca_file [ none ↦ none | some path ↦ some (anchor host base_dir path) ])
instance_tls host base_dir ca_file false = build_empty_client_tls host.rustls

unfoldable pub validate_instance : Host → Text → RawInstance → Result Instance
unfolding valid_name validate_base_url build_client_tls load_key_file anchor
validate_instance host base_dir raw = do
  _ ← refuse_if (not (valid_name raw.name)) bad_name
  parsed ← validate_base_url host.net raw.base_url true
  _ ← refuse_if (is_some raw.ca_file && not parsed.is_https) ca_without_https
  _ ← instance_tls host base_dir raw.ca_file parsed.is_https
  api_key ← load_key_file host.disk (anchor host base_dir raw.api_key_file)
  bearer ← ok_or (host.header_bytes (codes "Bearer " ++ api_key)) bad_key
  ok (record {
    name = raw.name;
    base_url = parsed.base_url;
    authority = parsed.authority;
    api_key = api_key;
    bearer = bearer;
    is_https = parsed.is_https;
  })

unfoldable pub validate_agent : Host → List Instance → RawAgent → Result Agent
unfolding valid_name validate_base_url parse_kind
validate_agent host instances raw = do
  _ ← refuse_if (not (valid_name raw.name)) bad_name
  parsed ← validate_base_url host.net raw.base_url false
  kind ← ok_or (parse_kind raw.kind) bad_kind
  _ ←
      refuse_if (not (any (λ (i : Instance). text_eq i.name raw.instance_name) instances))
        unknown_instance
  ok (record {
    name = raw.name;
    base_url = parsed.base_url;
    authority = parsed.authority;
    instance_name = raw.instance_name;
    kind = kind;
    is_https = parsed.is_https;
  })
