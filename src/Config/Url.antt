-- ===== src/Config/Url.antt =====
-- Names and upstream URLs in crates/console-server/src/config.rs: `valid_name` and `validate_base_url`.
pub mod Laws
use muser_console.Base.{
  ℕ, Bool, true, false, not, ◌==◌, leb, ◌&&◌, ◌||◌, Text, codes, text_eq, strip_prefix, byte_length,
  List, [], ◌∷◌, ◌++◌, any, all, Option, none, some, unwrap_or, if◌then◌else◌,
}
use muser_console.Config.Result.{
  bad_scheme, fragment, query, userinfo, has_path, bad_authority, not_canonical, not_loopback,
  Result, ok, err, ◌>>=◌, refuse_if, ok_or,
}
use muser_console.Base

-- `Authority` and `IpAddr`, as far as the validation asks them.
pub record Authority : Type 0 where
  pub as_str : Text
  pub host : Text

pub record Net : Type 0 where
  -- `text.parse::<Authority>().ok()`
  pub authority : Text → Option Authority
  -- whether the address is a loopback one, if `text.parse::<IpAddr>()` succeeds
  pub ip_is_loopback : Text → Option Bool

-- `u8::is_ascii_alphanumeric`
abbrev pub is_alphanumeric : ℕ → Bool
is_alphanumeric b = (leb 48 b && leb b 57) || (leb 65 b && leb b 90) || (leb 97 b && leb b 122)

abbrev pub name_byte : ℕ → Bool
name_byte b = is_alphanumeric b || b == b'_' || b == b'-'

unfoldable pub valid_name : Text → Bool
valid_name name = not (text_eq name []) && (leb (byte_length name) 64 && all name_byte name)

-- `str::strip_suffix` of one character
abbrev pub strip_suffix : Text → ℕ → Option Text
strip_suffix [] c = none
strip_suffix (x ∷ []) c = if x == c then some [] else none
strip_suffix (x ∷ (y ∷ s)) c = Base.◌>>=◌ (strip_suffix (y ∷ s) c) (λ r. some (x ∷ r))

abbrev pub contains : Text → ℕ → Bool
contains s c = any (λ x. x == c) s

pub record ParsedBaseUrl : Type 0 where
  pub base_url : Text
  pub authority : Text
  pub is_https : Bool

-- the scheme, what follows it, and whether it is https
abbrev pub scheme_of : Text → Option (Text × Text × Bool)
scheme_of raw = elim (strip_prefix raw (codes "https://")) [
  | some rest ↦ some (codes "https", rest, true)
  | none ↦ elim (strip_prefix raw (codes "http://")) [
    | some rest ↦ some (codes "http", rest, false)
    | none ↦ none
  ]
]

-- the host without the brackets of an IPv6 literal
abbrev pub host_text : Text → Text
host_text host =
    unwrap_or (Base.◌>>=◌ (strip_prefix host (codes "[")) (λ inner. strip_suffix inner b']')) host

-- whether the host spells a loopback IP
abbrev pub is_loopback_literal : Net → Text → Bool
is_loopback_literal net host = unwrap_or (net.ip_is_loopback (host_text host)) false

-- the checks behind the scheme
abbrev pub validate_rest : Net → Text → Text → Bool → Bool → Result ParsedBaseUrl
validate_rest net scheme after is_https secure_remote_engine = do
  _ ← refuse_if (contains after b'#') fragment
  _ ← refuse_if (contains after b'?') query
  _ ← refuse_if (contains after b'@') userinfo
  let rest = unwrap_or (strip_suffix after b'/') after
  _ ← refuse_if (text_eq rest [] || contains rest b'/') has_path
  authority ← ok_or (net.authority rest) bad_authority
  _ ← refuse_if (not (text_eq authority.as_str rest)) not_canonical
  _ ←
      refuse_if
        (secure_remote_engine && (not is_https && not (is_loopback_literal net authority.host)))
        not_loopback
  ok (record { base_url = scheme ++ (codes "://" ++ rest); authority = rest; is_https = is_https })

unfoldable pub validate_base_url : Net → Text → Bool → Result ParsedBaseUrl
validate_base_url net raw secure_remote_engine = elim (scheme_of raw) [
  | none ↦ err bad_scheme
  | some (scheme, after, is_https) ↦ validate_rest net scheme after is_https secure_remote_engine
]
