-- ===== src/State/Tickets.antt =====
-- The /stream tickets of crates/console-server/src/state.rs: `mint_ticket` and `consume_ticket`.
pub mod Laws
pub mod Spending
use muser_console.Base.{
  ℕ, ◌+◌, Bool, true, false, ltb, ◌&&◌, Text, text_eq, List, [], ◌∷◌, Option, none, some, find,
  retain, ◌>>=◌,
}
use muser_console.Auth.Compare.{constant_time_eq}
use muser_console.Http.{Http}
use muser_console.State.Types.{AppState, Ticket, ticket_ttl}
use muser_console.State.Maps.{map_insert, map_remove}

abbrev pub live_tickets : ℕ → List (Text × Ticket) → List (Text × Ticket)
live_tickets now tickets = retain (λ entry. ltb now entry.1.expiry) tickets

-- `bytes` is what `getrandom::fill` wrote; without it the mint fails and the state is as before.
unfoldable pub mint_ticket : Http → AppState → Text → Option (List ℕ) → ℕ → AppState × Option Text
mint_ticket http s instance_name none now = (s, none)
mint_ticket http s instance_name (some bytes) now =
    let ticket = http.encode bytes in
    let entry : Ticket = record { expiry = now + ticket_ttl; instance_name = instance_name } in
    (record s { tickets = map_insert ticket entry (live_tickets now s.tickets) }, some ticket)

abbrev pub opens : Text → Text → Text × Ticket → Bool
opens candidate instance_name (ticket, entry) =
    constant_time_eq ticket candidate && text_eq entry.instance_name instance_name

unfoldable pub consume_ticket : AppState → Text → Text → ℕ → AppState × Bool
consume_ticket s candidate instance_name now =
    let tickets = live_tickets now s.tickets in
    elim (find (opens candidate instance_name) tickets) [
      | none ↦ (record s { tickets = tickets }, false)
      | some (stored, _) ↦ (record s { tickets = map_remove stored tickets }, true)
    ]
