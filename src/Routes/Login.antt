-- ===== src/Routes/Login.antt =====
-- The dashboard's sessions over HTTP, in crates/console-server/src/routes.rs: `dashboard_login` and
-- `dashboard_session`.
pub mod Laws
use muser_console.Base.{
  ℕ, true, false, not, Text, codes, List, Option, none, some, is_some, ◌++◌, if◌then◌else◌,
}
use muser_console.Auth.Bearer.{valid_bearer}
use muser_console.Http.{Http, HeaderMap, Request}
use muser_console.State.Types.{AppState, session_cookie}
use muser_console.State.Sessions.{mint_session, valid_session}
use muser_console.Reply.{
  Response, string, number, object, no_field, field, json_response, error_json, with_header,
  auth_required,
}
use muser_console.Routes.Origin.{valid_login_origin}

abbrev pub no_store : Response → Response
no_store r =
    with_header (with_header r (codes "cache-control") (codes "no-store")) (codes "referrer-policy")
      (codes "no-referrer")

abbrev pub session_cookie_value : Text → Text
session_cookie_value session =
    session_cookie
    ++ (codes "=" ++ (session ++ codes "; Path=/; Max-Age=3600; Secure; HttpOnly; SameSite=Strict"))

-- The cookie is ASCII, so its characters are the bytes of its header value.
abbrev pub session_response : Text → Text → Response
session_response session csrf = no_store (
    with_header
      (json_response 200 (
        object (
          field (codes "csrf_token") (string csrf)
            (field (codes "expires_in") (number 3600) no_field))))
      (codes "set-cookie") (session_cookie_value session))

abbrev pub tls_required : Response
tls_required =
    error_json 400 (codes "tls_required")
      (codes "dashboard sessions require HTTPS; use bearer authentication on loopback HTTP")

abbrev pub invalid_origin : Text → Response
invalid_origin message = error_json 403 (codes "invalid_origin") message

abbrev pub no_entropy : Text → Response
no_entropy message = error_json 500 (codes "internal_error") message

-- the answer to a request for a session by what `mint_session` returned, where it failed `refuse`
abbrev pub opened : AppState × Option (Text × Text) → Response → AppState × Response
opened (s, none) refuse = (s, refuse)
opened (s, some (session, csrf)) refuse = (s, session_response session csrf)

module _ (http : Http) where
  -- `token` and `csrf` are what the two draws of `mint_session` yield
  unfoldable pub dashboard_login :
      AppState → Request → Option (List ℕ) → Option (List ℕ) → ℕ → AppState × Response
  unfolding valid_login_origin valid_bearer mint_session
  dashboard_login s request token csrf now = elim (is_some s.config.tls) [
    | false ↦ (s, tls_required)
    | true ↦ elim (valid_login_origin http request.headers) [
      | none ↦ (
        s,
        invalid_origin (codes "dashboard login requires an exact HTTPS Origin and Host match"),
      )
      | some origin ↦ elim (valid_bearer http s.config.access_key request.headers) [
        | false ↦ (s, auth_required)
        | true ↦
            opened (mint_session http s origin token csrf now)
              (no_entropy (codes "session entropy unavailable"))
      ]
    ]
  ]

  -- the answer by what `session_csrf` found
  abbrev pub restored : AppState × Option Text → AppState × Response
  restored (s, none) = (s, no_store auth_required)
  restored (s, some csrf) =
      (s, no_store (json_response 200 (object (field (codes "csrf_token") (string csrf) no_field))))

  unfoldable pub dashboard_session : AppState → HeaderMap → ℕ → AppState × Response
  unfolding valid_login_origin valid_session
  dashboard_session s headers now = elim (is_some s.config.tls) [
    | false ↦ (s, no_store tls_required)
    | true ↦ elim (valid_login_origin http headers) [
      | none ↦ (
        s,
        no_store (
            invalid_origin
              (codes "dashboard session bootstrap requires an exact HTTPS Origin and Host match")),
      )
      | some origin ↦ restored (valid_session http s headers now)
    ]
  ]
