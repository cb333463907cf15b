-- ===== src/Routes/Origin.antt =====
-- Where a request says it is sent, in crates/console-server/src/routes.rs: `normalize_authority`,
-- `valid_login_origin` and `split_instance`.
pub mod Laws
use muser_console.Base.{
  ℕ, Text, codes, text_eq, strip_prefix, split_once, List, ◌∷◌, ◌++◌, Option, none, some, ◌>>=◌,
  if◌then◌else◌,
}
use muser_console.Http.{Http, HeaderMap, Request, contains_key, insert}
use muser_console.State.Headers.{single_header}
use muser_console.Reply.{Response, error_json}

-- The request that `next.run` is given, or the message of the refusal.
pub data Normalized : Type 0 where
  accepted : Request → Normalized
  rejected : Text → Normalized

module _ (http : Http) where
  -- with the authority of the URI, by what the one Host header says and whether there is any
  abbrev pub with_authority : Request → Text → Option Text → Normalized
  with_authority request authority (some host) =
      if text_eq host authority
      then accepted request
      else rejected (codes "request Host and HTTP/2 authority must match exactly")
  with_authority request authority none =
      if contains_key request.headers (codes "host")
      then rejected (codes "request Host must contain one valid authority")
      else elim (http.header_value authority) [
        | none ↦ rejected (codes "request authority must be a valid Host value")
        | some value ↦
            accepted (record request { headers = insert request.headers (codes "host") value })
      ]

  unfoldable pub normalize_authority : Request → Normalized
  unfolding single_header
  normalize_authority request = elim request.uri.authority [
    | none ↦ accepted request
    | some authority ↦
        with_authority request authority (single_header http request.headers (codes "host"))
  ]

  -- The middleware around a handler.
  unfoldable pub normalize_request_authority {ℓ} :
      {R : Type ℓ} → Request → (Response → R) → (Request → R) → R
  unfolding normalize_authority
  normalize_request_authority request refuse next = elim (normalize_authority request) [
    | accepted request' ↦ next request'
    | rejected message ↦ refuse (error_json 400 (codes "invalid_request_error") message)
  ]

  unfoldable pub valid_login_origin : HeaderMap → Option Text
  unfolding single_header
  valid_login_origin headers = do
    host ← single_header http headers (codes "host")
    authority ← http.authority host
    expected ← if text_eq authority host then some (codes "https://" ++ authority) else none
    origin ← single_header http headers (codes "origin")
    if text_eq origin expected then some expected else none

-- `/i/{name}/rest` into the name and `/rest`
unfoldable pub split_instance : Text → Option (Text × Text)
split_instance path_and_query = do
  rest ← strip_prefix path_and_query (codes "/i/")
  (name, behind) ← split_once rest b'/'
  some (name, b'/' ∷ behind)
