-- ===== src/State/Sessions.antt =====
-- The dashboard sessions and the authorisation of requests, from crates/console-server/src/state.rs:
-- `mint_session`, `valid_session`, `session_csrf`, `authorized_read` and `authorized_mutation`.
pub mod Laws
pub mod Grants
use muser_console.Base.{
  ℕ, ◌+◌, Bool, true, false, ltb, ◌&&◌, Text, codes, List, [], ◌∷◌, Option, none, some, is_some,
  find, retain, ◌>>=◌, if◌then◌else◌,
}
use muser_console.Auth.Compare.{constant_time_eq}
use muser_console.Auth.Bearer.{valid_bearer}
use muser_console.Http.{Http, HeaderMap, get}
use muser_console.State.Types.{AppState, Session, session_ttl, session_cookie, MutationAuthError}
use muser_console.State.Types
use muser_console.State.Maps.{map_insert}
use muser_console.State.Headers.{cookie_value, request_origin}

pub data Authorisation : Type 0 where
  ok : Authorisation
  err : MutationAuthError → Authorisation

abbrev pub live_sessions : ℕ → List (Text × Session) → List (Text × Session)
live_sessions now sessions = retain (λ entry. ltb now entry.1.expiry) sessions

module _ (http : Http) where
  -- The two arguments behind the origin are what `getrandom::fill` wrote, `none` where it failed.
  unfoldable pub mint_session :
      AppState → Text → Option (List ℕ) → Option (List ℕ) → ℕ → AppState × Option (Text × Text)
  mint_session s origin none csrf_bytes now = (s, none)
  mint_session s origin (some token_bytes) none now = (s, none)
  mint_session s origin (some token_bytes) (some csrf_bytes) now =
      let token = http.encode token_bytes in
      let csrf = http.encode csrf_bytes in
      let entry : Session = record { expiry = now + session_ttl; csrf = csrf; origin = origin } in
      (
        record s { sessions = map_insert token entry (live_sessions now s.sessions) },
        some (token, csrf),
      )

  abbrev pub bears : Text → Text → Text × Session → Bool
  bears candidate origin (token, entry) =
      constant_time_eq token candidate && constant_time_eq entry.origin origin

  -- the credentials of a request: its session cookie and its origin
  abbrev pub credentials : AppState → HeaderMap → Option (Text × Text)
  credentials s headers = do
    tls ← s.config.tls
    candidate ← cookie_value http headers session_cookie
    origin ← request_origin http headers
    some (candidate, origin)

  unfoldable pub valid_session : AppState → HeaderMap → ℕ → AppState × Option Text
  valid_session s headers now = elim (credentials s headers) [
    | none ↦ (s, none)
    | some (candidate, origin) ↦
        let sessions = live_sessions now s.sessions in
        (
          record s { sessions = sessions },
          elim (find (bears candidate origin) sessions) [
            | none ↦ none
            | some (_, entry) ↦ some entry.csrf
          ],
        )
  ]

  abbrev pub loopback_bearer : AppState → HeaderMap → Bool
  loopback_bearer s headers =
      s.config.listen.is_loopback && valid_bearer http s.config.access_key headers

  unfoldable pub authorized_read : AppState → HeaderMap → ℕ → AppState × Bool
  unfolding valid_session
  authorized_read s headers now =
      if loopback_bearer s headers
      then (s, true)
      else (let (s', csrf) = valid_session s headers now in (s', is_some csrf))

  -- `candidate.is_some_and(|candidate| constant_time_eq(candidate, csrf))`
  abbrev pub csrf_matches : HeaderMap → Text → Bool
  csrf_matches headers csrf = elim (get headers (codes "x-csrf-token") >>= http.to_str) [
    | none ↦ false
    | some candidate ↦ constant_time_eq candidate csrf
  ]

  -- the second half of `authorized_mutation`, on the outcome of `valid_session`
  abbrev pub by_session : HeaderMap → AppState × Option Text → AppState × Authorisation
  by_session headers (s, none) = (s, err Types.unauthorized)
  by_session headers (s, some csrf) = (s, if csrf_matches headers csrf then ok else err Types.csrf)

  unfoldable pub authorized_mutation : AppState → HeaderMap → ℕ → AppState × Authorisation
  unfolding valid_session
  authorized_mutation s headers now =
      if loopback_bearer s headers
      then (s, ok)
      else by_session headers (valid_session s headers now)
