-- ===== src/Stream.antt =====
-- The tickets over HTTP and the upgrade to a stream, in crates/console-server/src/ws.rs.
pub mod Laws
pub mod Query
pub mod Bridge
use muser_console.Base.{
  ℕ, Bool, true, false, not, ◌||◌, Text, codes, text_eq, split, split_once, List, [], ◌∷◌, ◌++◌,
  Option, none, some, is_some, unwrap_or, ◌>>=◌, if◌then◌else◌,
}
use muser_console.Config.Types.{Instance, instance_named}
use muser_console.Http.{Http, Uri, Request, path, query}
use muser_console.State.Types.{AppState}
use muser_console.State.Tickets.{mint_ticket, consume_ticket}
use muser_console.Reply.{
  Response, string, number, boolean, object, no_field, field, bridge_to, json_response, error_json,
  auth_required, mutation_rejection, unless_rejected,
}
use muser_console.Routes.Origin.{split_instance}
use muser_console.Routes.Proxied.{unknown_instance, default_instance}

-- `Err(())`, or the ticket if there is one
pub data StreamQuery : Type 0 where
  refused : StreamQuery
  parsed : Option Text → StreamQuery

-- the loop over the pairs
abbrev pub query_pairs : List Text → Option Text → StreamQuery
query_pairs [] ticket = parsed ticket
query_pairs (pair ∷ rest) ticket =
    let (key, value) = unwrap_or (split_once pair b'=') (pair, []) in
    if not (text_eq key (codes "ticket")) || is_some ticket
    then refused
    else query_pairs rest (some value)

unfoldable pub parse_stream_query : Option Text → StreamQuery
parse_stream_query none = parsed none
parse_stream_query (some []) = parsed none
parse_stream_query (some (c ∷ q)) = query_pairs (split (c ∷ q) b'&') none

abbrev pub ticket_value : Text → Response
ticket_value ticket = json_response 200 (
    object (
      field (codes "ticket") (string ticket) (
        field (codes "expires_in") (number 30)
          (field (codes "single_use") (boolean true) no_field))))

-- the answer by what `mint_ticket` returned
abbrev pub ticket_answer : AppState × Option Text → AppState × Response
ticket_answer (s, none) =
    (s, error_json 500 (codes "internal_error") (codes "ticket entropy unavailable"))
ticket_answer (s, some ticket) = (s, ticket_value ticket)

-- The answer with the status 101, behind which the bridge to the instance runs.
abbrev pub on_upgrade : Text → Response
on_upgrade name = record { status = 101; headers = []; body = bridge_to name }

abbrev pub bad_query : Response
bad_query =
    error_json 400 (codes "invalid_request_error") (codes "unknown query parameter on /stream")

-- the answer by what `consume_ticket` returned
abbrev pub upgraded : Text → AppState × Bool → AppState × Response
upgraded name (s, true) = (s, on_upgrade name)
upgraded name (s, false) = (s, auth_required)

-- the answer by what the query says
abbrev pub streamed : AppState → Text → ℕ → StreamQuery → AppState × Response
streamed s name now refused = (s, bad_query)
streamed s name now (parsed none) = (s, auth_required)
streamed s name now (parsed (some candidate)) = upgraded name (consume_ticket s candidate name now)

unfoldable pub stream_for : AppState → Uri → Text → ℕ → AppState × Response
unfolding parse_stream_query consume_ticket
stream_for s uri name now = streamed s name now (parse_stream_query (query uri))

unfoldable pub stream_instance : AppState → Uri → ℕ → AppState × Response
unfolding split_instance stream_for
stream_instance s uri now = elim (split_instance (path uri)) [
  | none ↦ (s, auth_required)
  | some (name, _) ↦ stream_for s uri name now
]

-- `none` is the panic of `default_instance`
unfoldable pub stream : AppState → Uri → ℕ → Option (AppState × Response)
unfolding stream_for
stream s uri now = default_instance s.config >>= λ i. some (stream_for s uri i.name now)

module _ (http : Http) where
  -- `entropy` is what `getrandom::fill` yields, `now` the instant of the mint.
  unfoldable pub mint_response : AppState → Text → Option (List ℕ) → ℕ → AppState × Response
  unfolding mint_ticket
  mint_response s name entropy now = ticket_answer (mint_ticket http s name entropy now)

  -- the state and an answer of `none` where the default instance's index panics
  unfoldable pub mint : AppState → Request → Option (List ℕ) → ℕ → ℕ → AppState × Option Response
  unfolding mutation_rejection mint_response
  mint s request entropy authorised now =
      unless_rejected (mutation_rejection http s request.headers authorised)
        (λ response. some response)
        (λ s'. elim (default_instance s'.config) [
          | none ↦ (s', none)
          | some i ↦
              let (s'', response) = mint_response s' i.name entropy now in (s'', some response)
        ])

  unfoldable pub mint_instance : AppState → Request → Option (List ℕ) → ℕ → ℕ → AppState × Response
  unfolding mutation_rejection split_instance mint_response
  mint_instance s request entropy authorised now =
      unless_rejected (mutation_rejection http s request.headers authorised) (λ response. response)
        (λ s'.
          elim (split_instance (path request.uri) >>= λ named. instance_named s'.config named.0) [
            | none ↦ (s', unknown_instance)
            | some i ↦ mint_response s' i.name entropy now
          ])
