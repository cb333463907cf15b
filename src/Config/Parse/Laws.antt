-- ===== src/Config/Parse/Laws.antt =====
-- What `Config::parse` of crates/console-server/src/config.rs accepts.
use muser_console.Base.{
  ℕ, ltb, ◌≤◌, true, false, Text, codes, text_eq, List, [], ◌∷◌, length, All, Option, none, some,
  is_some, unwrap_or, ◌≡◌, ◌⊎◌, refl, sym, ap, subst, inl, inr, arith, Bool-cases, Option-cases,
}
use muser_console.Config.Types.{SocketAddr, ConsoleTls, HistoryConfig, Config}
use muser_console.Config.Files.{Disk, read_private_file, read_regular_file_bounded, load_key_file}
use muser_console.Config.Files.Laws.{IsKey, load_key_file_sound}
use muser_console.Config.Tls.{resolve_console_tls}
use muser_console.Config.Entries.{RawHistory, Host, anchor, resolve_history}
use muser_console.Config.Entries.Laws.{IsInstance, IsAgent}
use muser_console.Config.Result.{ok, Result-cases}
use muser_console.Config.Parse.{
  RawConfig, Readers, is_empty, instances_with, agents_with, anchored, is_file_at, some_of,
  agent_tls, parse_fleet, parse,
}
use muser_console.Config.Parse.Loops.{
  Pairwise, Apart, Separate, instances_with_sound, agents_with_sound,
}

-- the checks behind the address and the TLS material
abbrev pub Checked : Host → Config → Type 0
Checked host c =
    IsKey c.access_key
    × (1 ≤ c.history.retention_days)
    × (1 ≤ length c.instances)
    × All (IsInstance host) c.instances
    × Pairwise Apart c.instances
    × All (IsAgent c.instances) c.agents
    × Pairwise Separate c.agents

-- What the server relies on.
abbrev pub IsValid : Host → Config → Type 0
IsValid host c = ((c.listen.is_loopback ≡ true) ⊎ (is_some c.tls ≡ true)) × Checked host c

tls_sound :
    (disk : Disk) (cert key : Option Text) (listen : SocketAddr) (tls : Option ConsoleTls)
    → resolve_console_tls disk cert key listen ≡ ok tls
    → (listen.is_loopback ≡ true) ⊎ (is_some tls ≡ true)
unfolding resolve_console_tls
tls_sound disk none none listen tls h = inl (ground (arith, h))
tls_sound disk (some c) none listen tls h = cc
tls_sound disk none (some k) listen tls h = cc
tls_sound disk (some c) (some k) listen (some t) h = inr refl
tls_sound disk (some c) (some k) listen none h =
    elim (Result-cases (read_regular_file_bounded disk c 1_048_576)) [
      | inr (e, bad) ↦ cc (rw (resolve_console_tls, bad) at h)
      | inl (cert, read) ↦ elim (Bool-cases (text_eq cert [])) [
        | inl bad ↦ cc (rw (resolve_console_tls, read, bad) at h)
        | inr full ↦ elim (Result-cases (read_private_file disk k 65_537 true)) [
          | inr (e, bad) ↦ cc (rw (resolve_console_tls, read, full, bad) at h)
          | inl (key, read') ↦ elim (Bool-cases (text_eq key [])) [
            | inl bad ↦ cc (rw (resolve_console_tls, read, full, read', bad) at h)
            | inr full' ↦ elim (Bool-cases (ltb 65_536 (length key))) [
              | inl bad ↦ cc (rw (resolve_console_tls, read, full, read', full', bad) at h)
              | inr short ↦ cc (rw (resolve_console_tls, read, full, read', full', short) at h)
            ]
          ]
        ]
      ]
    ]

history_sound :
    (host : Host) (given : Option RawHistory) (base_dir : Text) (history : HistoryConfig)
    → resolve_history host given base_dir ≡ ok history
    → 1 ≤ history.retention_days
unfolding resolve_history
history_sound host given base_dir history h = ground (arith, h)

is_empty-length : {A : Type 0} (xs : List A) → is_empty xs ≡ false → 1 ≤ length xs
is_empty-length [] h = cc
is_empty-length (x ∷ xs) h = omega arith

fleet_sound :
    (host : Host) (base_dir : Text) (raw : RawConfig) (listen : SocketAddr)
    (tls : Option ConsoleTls) (access_key : List ℕ) (history : HistoryConfig) (ui_dir : Text)
    (c : Config)
    → IsKey access_key
    → 1 ≤ history.retention_days
    → parse_fleet host base_dir raw listen tls access_key history ui_dir ≡ ok c
    → Checked host c × (c.listen ≡ listen) × (c.tls ≡ tls)
unfolding parse_fleet
fleet_sound host base_dir raw listen tls access_key history ui_dir c is_key kept h =
    let there : is_file_at host (host.join ui_dir (codes "muser-dashboard.html")) ≡ true =
      ground (arith, h) in
    let some_raw : is_empty raw.instances ≡ false = ground (arith, h) in
    elim (Result-cases (instances_with host base_dir raw.instances [])) [
      | inr (e, bad) ↦ absurd (cc (rw (parse_fleet, there, some_raw, bad) at h))
      | inl (instances, all_in) ↦ elim (Result-cases (agents_with host instances raw.agents [])) [
        | inr (e, bad) ↦ absurd (cc (rw (parse_fleet, there, some_raw, all_in, bad) at h))
        | inl (agents, all_on) ↦ elim (Result-cases (agent_tls host agents)) [
          | inr (e, bad) ↦ absurd (cc (rw (parse_fleet, there, some_raw, all_in, all_on, bad) at h))
          | inl (_, built) ↦
              let (valid, apart, count) =
                instances_with_sound host base_dir raw.instances [] instances tt tt all_in in
              let (valid', apart') =
                agents_with_sound host instances raw.agents [] agents tt tt all_on in
              let made : ok (record {
                listen = listen;
                tls = tls;
                access_key = access_key;
                ui_dir = ui_dir;
                history = history;
                instances = instances;
                agents = agents;
              })
                  ≡ ok c =
                rw (parse_fleet, there, some_raw, all_in, all_on, built) at h in
              let same : record {
                listen = listen;
                tls = tls;
                access_key = access_key;
                ui_dir = ui_dir;
                history = history;
                instances = instances;
                agents = agents;
              }
                  ≡ c =
                cc made in
              subst (λ (x : Config). Checked host x × (x.listen ≡ listen) × (x.tls ≡ tls)) same
                (
                  (
                    is_key,
                    kept,
                    omega (arith, count, is_empty-length raw.instances some_raw),
                    valid,
                    apart,
                    valid',
                    apart',
                  ),
                  refl,
                  refl,
                )
        ]
      ]
    ]

-- A configuration that is accepted is valid: TLS unless the server listens on loopback only, a key, a
-- retention of at least a day, at least one instance, every instance with a valid name, a secure origin and a
-- key, every agent attached to an instance, and no two instances or agents that could be taken for each other.
pub parse-IsValid :
    (host : Host) (readers : Readers) (text base_dir : Text) (listen_override : Option Text)
    (c : Config)
    → parse host readers text base_dir listen_override ≡ ok c
    → IsValid host c
unfolding parse
parse-IsValid host readers text base_dir listen_override c h =
    elim (Option-cases (readers.toml text)) [
      | inl bad ↦ absurd (cc (rw (parse, bad) at h))
      | inr (raw, read) ↦
          let address = unwrap_or (some_of listen_override raw.listen) (codes "127.0.0.1:5959") in
          let cert = anchored host base_dir raw.tls_cert in
          let key = anchored host base_dir raw.tls_key in
          let key_path = anchor host base_dir raw.access_key_file in
          elim (Option-cases (readers.socket_addr address)) [
            | inl bad ↦ absurd (cc (rw (parse, read, bad) at h))
            | inr (listen, at) ↦
                elim (Result-cases (resolve_console_tls host.disk cert key listen)) [
                  | inr (e, bad) ↦ absurd (cc (rw (parse, read, at, bad) at h))
                  | inl (tls, secured) ↦ elim (Result-cases (load_key_file host.disk key_path)) [
                    | inr (e, bad) ↦ absurd (cc (rw (parse, read, at, secured, bad) at h))
                    | inl (access_key, loaded) ↦
                        elim (Result-cases (resolve_history host raw.history base_dir)) [
                          | inr (e, bad) ↦
                              absurd (cc (rw (parse, read, at, secured, loaded, bad) at h))
                          | inl (history, resolved) ↦
                              let (_, _, _, _, _, _, _, _, _, is_key) =
                                load_key_file_sound host.disk key_path access_key loaded in
                              let (checked, l, t) =
                                fleet_sound host base_dir raw listen tls access_key history _ c
                                  is_key (history_sound host raw.history base_dir history resolved)
                                  (rw (parse, read, at, secured, loaded, resolved) at h) in
                              (
                                subst (λ x. (x ≡ true) ⊎ (is_some c.tls ≡ true))
                                    (ap (λ (a : SocketAddr). a.is_loopback) (sym l))
                                    (subst (λ x. (listen.is_loopback ≡ true) ⊎ (is_some x ≡ true))
                                      (sym t) (tls_sound host.disk cert key listen tls secured)),
                                checked,
                              )
                        ]
                  ]
                ]
          ]
    ]
