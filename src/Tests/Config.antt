-- ===== src/Tests/Config.antt =====
-- The validation of the configuration at a concrete file.
use Prim.Native.Nat.{bit_and}
use muser_console.Base.{
  length, ◌≤◌, ℕ, Bool, true, false, ◌==◌, Text, codes, text_eq, List, [], ◌∷◌, ◌++◌, Option, none,
  some, ◌≡◌, refl, inl,
}
use muser_console.Config.Types.{gx10, Instance, Config}
use muser_console.Config.Result.{ok}
use muser_console.Config.Files.{Entry, Disk, read_private_file, load_key_file}
use muser_console.Config.Files.Laws.{IsTrimmed, IsKey, load_key_file_sound}
use muser_console.Config.Url.{Net, valid_name, validate_base_url}
use muser_console.Config.Tls.{resolve_console_tls, build_client_tls}
use muser_console.Config.Entries.{
  Host, anchor, parse_kind, resolve_history, validate_instance, validate_agent,
}
use muser_console.Config.Parse.{Readers, parse_fleet, parse}
use muser_console.Config.Parse.Laws.{IsValid, parse-IsValid}
use muser_console.Routes.Proxied.{resolve}
use muser_console.Routes.Reach.{IsValid-resolve}

abbrev file : List ℕ → Entry
file bytes = record { is_symlink = false; is_file = true; mode = 0o600; bytes = some bytes }

abbrev disk : Disk
disk path = elim (text_eq path (codes "/key")) [
  | true ↦ some (file (codes " secret "))
  | false ↦ elim (text_eq path (codes "/ui/muser-dashboard.html")) [
    | true ↦ some (file [])
    | false ↦ none
  ]
]

abbrev net : Net
net = record {
  authority = λ t. some (record { as_str = t; host = t });
  ip_is_loopback = λ t. if_loopback t;
}
  where
    if_loopback : Text → Option Bool
    if_loopback t = some (text_eq t (codes "127.0.0.1"))

abbrev host : Host
host = record {
  disk = disk;
  is_absolute = λ path. elim path [ [] ↦ false | c ∷ _ ↦ c == 47 ];
  join = λ base path. base ++ (codes "/" ++ path);
  net = net;
  rustls = record {
    pem_certificates = λ pem. none;
    roots_accept = λ pem. true;
    native_roots = 1;
    protocols = true;
  };
  header_bytes = λ bytes. some bytes;
}

abbrev readers : Readers
readers = record {
  toml = λ text. some (record {
    listen = none;
    tls_cert = none;
    tls_key = none;
    access_key_file = codes "/key";
    ui_dir = some (codes "/ui");
    history = none;
    instances =
        record {
          name = codes "gx";
          base_url = codes "http://127.0.0.1/";
          api_key_file = codes "key";
          ca_file = none;
        }
        ∷ [];
    agents =
        record {
          name = codes "side";
          base_url = codes "https://side:9";
          instance_name = codes "gx";
          kind = codes "gx10";
        }
        ∷ [];
  });
  socket_addr = λ text. some (record { text = text; is_loopback = true });
}

abbrev gx : Instance
gx = record {
  name = codes "gx";
  base_url = codes "http://127.0.0.1";
  authority = codes "127.0.0.1";
  api_key = codes "secret";
  bearer = codes "Bearer secret";
  is_https = false;
}

abbrev accepted : Config
accepted = record {
  listen = record { text = codes "127.0.0.1:5959"; is_loopback = true };
  tls = none;
  access_key = codes "secret";
  ui_dir = codes "/ui";
  history = record {
    db_path = codes "/console-history.sqlite";
    retention_days = 7;
    enabled = true;
    sample_interval_ms = 1000;
  };
  instances = gx ∷ [];
  agents =
      record {
        name = codes "side";
        base_url = codes "https://side:9";
        authority = codes "side:9";
        instance_name = codes "gx";
        kind = gx10;
        is_https = true;
      }
      ∷ [];
}

parsed : parse host readers [] [] none ≡ ok accepted
unfolding parse parse_fleet resolve_console_tls load_key_file read_private_file resolve_history
    anchor validate_instance validate_agent valid_name validate_base_url parse_kind build_client_tls
parsed = refl

parse-IsValid_example : IsValid host accepted
parse-IsValid_example = parse-IsValid host readers [] [] none accepted parsed

loaded : load_key_file disk (codes "/key") ≡ ok (codes "secret")
unfolding load_key_file read_private_file
loaded = refl

load_key_file_sound_example :
    (entry : Entry) × (content : List ℕ) × (disk (codes "/key") ≡ some entry)
    × (entry.is_symlink ≡ false)
    × (entry.is_file ≡ true)
    × (bit_and (bit_and entry.mode 0o7777) 0o77 ≡ 0)
    × (entry.bytes ≡ some content)
    × (length content ≤ 4096)
    × IsTrimmed content (codes "secret")
    × IsKey (codes "secret")
load_key_file_sound_example = load_key_file_sound disk (codes "/key") (codes "secret") loaded

accepted-IsValid : IsValid host accepted
accepted-IsValid = parse-IsValid host readers [] [] none accepted parsed

IsValid-resolve_example :
    resolve accepted (codes "/i/" ++ (gx.name ++ b'/' ∷ codes "snapshot"))
    ≡ some (gx, b'/' ∷ codes "snapshot")
IsValid-resolve_example =
    IsValid-resolve host accepted gx (codes "snapshot") accepted-IsValid (inl refl)
