-- ===== src/Tests/State.antt =====
-- The tickets, the sessions, the comparison and the catalog at concrete inputs.
use muser_console.Base.{ℕ, ◌+◌, ◌≤◌, true, Text, codes, List, [], ◌∷◌, some, ◌≡◌, ◌⊎◌, refl}
use muser_console.Auth.Compare.{constant_time_eq}
use muser_console.Http.{HeaderMap}
use muser_console.State.Types.{AppState}
use muser_console.State.Headers.{
  single_header, request_origin, cookie_parts, cookie_headers, cookie_value,
}
use muser_console.State.Tickets.Spending.{
  Call, mints, consumes, spent, issued, held, spent-le-issued,
}
use muser_console.State.Sessions.{
  mint_session, credentials, loopback_bearer, valid_session, authorized_read, authorized_mutation,
  csrf_matches, ok,
}
use muser_console.State.Sessions.Laws.{Holds, authorized_mutation_sound}
use muser_console.Catalog.Series.{Series, agent_host}
use muser_console.Catalog.Lookup.{all, lookup}
use muser_console.Tests.Data.{plain, console}

abbrev calls : List (ℕ × Call)
calls =
    (1000, mints (codes "gx") (some (codes "u")))
    ∷ ((2000, consumes (codes "u") (codes "gx")) ∷ ((2001, consumes (codes "u") (codes "gx")) ∷ []))

spent-le-issued_example :
    spent plain (codes "u") console calls
    ≤ issued plain (codes "u") console calls + held (codes "u") console.tickets
spent-le-issued_example = spent-le-issued plain (codes "u") console calls

abbrev headers : HeaderMap
headers =
    (codes "host", codes "h")
    ∷ ((codes "cookie", codes "muser_console_session=abc")
        ∷ ((codes "x-csrf-token", codes "tok") ∷ []))

abbrev origin : Text
origin = codes "https://h"

abbrev entered : AppState
entered = (mint_session plain console origin (some (codes "abc")) (some (codes "tok")) 1000).0

credentials_example : credentials plain console headers ≡ some (codes "abc", origin)
unfolding cookie_value cookie_headers cookie_parts request_origin single_header
credentials_example = refl

mutation_example : (authorized_mutation plain entered headers 2000).1 ≡ ok
unfolding constant_time_eq authorized_mutation valid_session mint_session cookie_value
    cookie_headers cookie_parts request_origin single_header
mutation_example = refl

read_example : (authorized_read plain entered headers 2000).1 ≡ true
unfolding constant_time_eq authorized_read valid_session mint_session cookie_value cookie_headers
    cookie_parts request_origin single_header
read_example = refl

session_example : (valid_session plain entered headers 2000).1 ≡ some (codes "tok")
unfolding constant_time_eq valid_session mint_session cookie_value cookie_headers cookie_parts
    request_origin single_header
session_example = refl

authorized_mutation_sound_example :
    (loopback_bearer plain entered headers ≡ true)
    ⊎ ((token : Text) × (o : Text) × (csrf : Text) × (credentials plain entered headers
          ≡ some (token, o))
        × Holds token o csrf 2000 entered.sessions
        × (csrf_matches plain headers csrf ≡ true))
authorized_mutation_sound_example =
    authorized_mutation_sound plain entered headers 2000 mutation_example

abbrev host_power : Series
host_power =
    agent_host (codes "host_package_power_watts") (codes "W")
      (codes "muser_host_package_power_watts")

host_power_found : lookup (codes "host_package_power_watts") ≡ some host_power
unfolding lookup all
host_power_found = refl
