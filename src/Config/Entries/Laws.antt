-- ===== src/Config/Entries/Laws.antt =====
-- What a validated instance and a validated agent of crates/console-server/src/config.rs are.
use muser_console.Base.{
  Bool, true, false, not, ◌&&◌, Text, codes, text_eq, List, [], ◌∷◌, ◌++◌, any, Any, some, is_some,
  ◌≡◌, ◌⊎◌, subst, inl, inr, arith, Bool-cases, Option-cases,
}
use muser_console.Config.Types.{Instance, Agent}
use muser_console.Config.Files.{load_key_file}
use muser_console.Config.Files.Laws.{IsKey, load_key_file_sound}
use muser_console.Config.Url.{ParsedBaseUrl, valid_name, validate_base_url}
use muser_console.Config.Url.Laws.{IsOrigin, IsSecure, validate_base_url_sound}
use muser_console.Config.Result.{ok, Result-cases}
use muser_console.Config.Entries.{
  RawInstance, RawAgent, Host, anchor, parse_kind, instance_tls, validate_instance, validate_agent,
}

abbrev pub url_of : Instance → ParsedBaseUrl
url_of i = record { base_url = i.base_url; authority = i.authority; is_https = i.is_https }

abbrev pub agent_url_of : Agent → ParsedBaseUrl
agent_url_of a = record { base_url = a.base_url; authority = a.authority; is_https = a.is_https }

-- The instance has a valid name, a secure origin for its URL, a key, and the header value that presents it.
abbrev pub IsInstance : Host → Instance → Type 0
IsInstance host i =
    (valid_name i.name ≡ true)
    × IsOrigin (url_of i)
    × IsSecure host.net (url_of i)
    × IsKey i.api_key
    × (host.header_bytes (codes "Bearer " ++ i.api_key) ≡ some i.bearer)

must : {P : Type 0} → (true ≡ false) ⊎ P → P
must (inl h) = cc
must (inr p) = p

-- A validated instance is one: its engine is reached over TLS or on a literal loopback address, and its key
-- is a key.
pub validate_instance_sound :
    (host : Host) (base_dir : Text) (raw : RawInstance) (i : Instance)
    → validate_instance host base_dir raw ≡ ok i
    → IsInstance host i
unfolding validate_instance
validate_instance_sound host base_dir raw i h =
    let named : valid_name raw.name ≡ true = ground (arith, h) in
    elim (Result-cases (validate_base_url host.net raw.base_url true)) [
      | inr (e, bad) ↦ absurd (cc (rw (validate_instance, named, bad) at h))
      | inl (p, url) ↦
          let (origin, _, secure) = validate_base_url_sound host.net raw.base_url true p url in
          let no_ca : (is_some raw.ca_file && not p.is_https) ≡ false = ground (arith, h, url) in
          elim (Result-cases (instance_tls host base_dir raw.ca_file p.is_https)) [
            | inr (e, bad) ↦ absurd (cc (rw (validate_instance, named, url, no_ca, bad) at h))
            | inl (_, tls) ↦
                elim (Result-cases
                  (load_key_file host.disk (anchor host base_dir raw.api_key_file))) [
                    | inr (e, bad) ↦
                        absurd (cc (rw (validate_instance, named, url, no_ca, tls, bad) at h))
                    | inl (key, loaded) ↦
                        elim (Option-cases (host.header_bytes (codes "Bearer " ++ key))) [
                          | inl bad ↦ absurd (
                              cc (rw (validate_instance, named, url, no_ca, tls, loaded, bad) at h))
                          | inr (bearer, valued) ↦
                              let (_, _, _, _, _, _, _, _, _, is_key) =
                                load_key_file_sound host.disk
                                  (anchor host base_dir raw.api_key_file) key loaded in
                              let made : ok (record {
                                name = raw.name;
                                base_url = p.base_url;
                                authority = p.authority;
                                api_key = key;
                                bearer = bearer;
                                is_https = p.is_https;
                              })
                                  ≡ ok i =
                                rw (validate_instance, named, url, no_ca, tls, loaded, valued) at
                                  h in
                              let same : record {
                                name = raw.name;
                                base_url = p.base_url;
                                authority = p.authority;
                                api_key = key;
                                bearer = bearer;
                                is_https = p.is_https;
                              }
                                  ≡ i =
                                cc made in
                              subst (IsInstance host) same
                                (named, origin, must secure, is_key, valued)
                        ]
                  ]
          ]
    ]

any-Any : {A : Type 0} (p : A → Bool) (xs : List A) → any p xs ≡ true → Any (λ x. p x ≡ true) xs
any-Any p [] h = cc
any-Any p (x ∷ xs) h = elim (Bool-cases (p x)) [
  | inl e ↦ inl e
  | inr e ↦ inr (any-Any p xs (rw e at h))
]

-- The agent has a valid name and an origin for its URL, and measures one of these instances.
abbrev pub IsAgent : List Instance → Agent → Type 0
IsAgent instances a =
    (valid_name a.name ≡ true)
    × IsOrigin (agent_url_of a)
    × Any (λ (i : Instance). text_eq i.name a.instance_name ≡ true) instances

pub validate_agent_sound :
    (host : Host) (instances : List Instance) (raw : RawAgent) (a : Agent)
    → validate_agent host instances raw ≡ ok a
    → IsAgent instances a
unfolding validate_agent
validate_agent_sound host instances raw a h =
    let named : valid_name raw.name ≡ true = ground (arith, h) in
    elim (Result-cases (validate_base_url host.net raw.base_url false)) [
      | inr (e, bad) ↦ absurd (cc (rw (validate_agent, named, bad) at h))
      | inl (p, url) ↦
          let (origin, _, _) = validate_base_url_sound host.net raw.base_url false p url in
          elim (Option-cases (parse_kind raw.kind)) [
            | inl bad ↦ absurd (cc (rw (validate_agent, named, url, bad) at h))
            | inr (kind, known) ↦
                let there : any (λ (i : Instance). text_eq i.name raw.instance_name) instances
                    ≡ true =
                  ground (arith, h, url, known) in
                let made : ok (record {
                  name = raw.name;
                  base_url = p.base_url;
                  authority = p.authority;
                  instance_name = raw.instance_name;
                  kind = kind;
                  is_https = p.is_https;
                })
                    ≡ ok a =
                  rw (validate_agent, named, url, known, there) at h in
                let same : record {
                  name = raw.name;
                  base_url = p.base_url;
                  authority = p.authority;
                  instance_name = raw.instance_name;
                  kind = kind;
                  is_https = p.is_https;
                }
                    ≡ a =
                  cc made in
                subst (IsAgent instances) same (named, origin, any-Any _ instances there)
          ]
    ]
