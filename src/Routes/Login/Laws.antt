-- ===== src/Routes/Login/Laws.antt =====
-- What a login of crates/console-server/src/routes.rs needs, and what it gives.
use muser_console.Base.{ℕ, ◌+◌, Text, List, Option, none, some, ◌≡◌, refl}
use muser_console.Http.{Http}
use muser_console.State.Types.{AppState, Session, session_ttl}
use muser_console.Reply.{Response}
use muser_console.Routes.Login.{opened}

pub opened_status :
    (r : AppState × Option (Text × Text)) (refuse : Response)
    → ¬ (refuse.status ≡ 200)
    → (opened r refuse).1.status ≡ 200
    → (session : Text) × (csrf : Text) × (r.1 ≡ some (session, csrf))
opened_status (s, none) refuse fails h = absurd (fails h)
opened_status (s, some (session, csrf)) refuse fails h = (session, csrf, refl)

module _ (http : Http) where
  -- the session that a login opens
  abbrev pub session_of : Text → List ℕ → List ℕ → ℕ → Text × Session
  session_of origin token csrf now = (
    http.encode token,
    record { expiry = now + session_ttl; csrf = http.encode csrf; origin = origin },
  )
