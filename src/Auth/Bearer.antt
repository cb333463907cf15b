-- ===== src/Auth/Bearer.antt =====
-- `valid_bearer` of crates/console-server/src/auth.rs.
use muser_console.Base.{ℕ, Bool, false, codes, strip_prefix, List, none, some, ◌>>=◌}
use muser_console.Http.{Http, HeaderMap, get}
use muser_console.Auth.Compare.{constant_time_eq}

unfoldable pub valid_bearer : Http → List ℕ → HeaderMap → Bool
valid_bearer http expected headers =
    elim (get headers (codes "authorization") >>= http.to_str >>= λ value.
    strip_prefix value (codes "Bearer ")) [
      | none ↦ false
      | some candidate ↦ constant_time_eq candidate expected
    ]
