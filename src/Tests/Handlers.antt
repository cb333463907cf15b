-- ===== src/Tests/Handlers.antt =====
-- The handlers of crates/console-server/src/routes.rs and crates/console-server/src/ws.rs at concrete inputs.
use muser_console.Base.{
  ℕ, true, false, Text, codes, text_eq, List, [], ◌∷◌, Option, none, some, ◌≡◌, ◌↔◌, ◌⊎◌, refl, sym,
  arith,
}
use muser_console.Auth.Compare.{constant_time_eq}
use muser_console.Auth.Bearer.{valid_bearer}
use muser_console.Config.Types.{Instance}
use muser_console.Http.{HeaderMap, Uri, Request, get_all, full_path, path}
use muser_console.State.Types.{AppState}
use muser_console.State.Headers.{
  single_header, request_origin, cookie_parts, cookie_headers, cookie_value,
}
use muser_console.State.Sessions.{
  credentials, mint_session, valid_session, authorized_read, authorized_mutation,
}
use muser_console.State.Tickets.Laws.{Redeemable}
use muser_console.State.Pairings.{consume_pairing, consume_pairing_at}
use muser_console.State.Pairings.Laws.{Pending}
use muser_console.Reply.{auth_required, read_rejection, mutation_rejection, rejection}
use muser_console.Proxy.{upstream_request}
use muser_console.Routes.Origin.{accepted, normalize_authority, valid_login_origin, split_instance}
use muser_console.Routes.Origin.Laws.{valid_login_origin_iff, normalize_authority-Agrees}
use muser_console.Routes.Peers.{IpAddr, v4, pairing_v4_allowed, pairing_peer_allowed}
use muser_console.Routes.Peers.Laws.{Local, pairing_peer_allowed_iff}
use muser_console.Routes.Proxied.{instance_proxied}
use muser_console.Routes.Proxied.Laws.{Names, instance_proxied-sent}
use muser_console.Routes.Pair.{QrCode, pairing_enabled, pairing_redeem, raw_of}
use muser_console.Routes.Pair.Laws.{pairing_redeem_sound}
use muser_console.Stream.{stream_for, stream_instance, mint_instance, ticket_value, on_upgrade}
use muser_console.Stream.Query.{IsTicketQuery}
use muser_console.Stream.Laws.{stream_for_iff, instance_routes-blind, mint_instance-stream_instance}
use muser_console.Stream.Bridge.{
  text, close, up_text, up_frame, Turn, from_browser, from_engine, bridge, ping,
}
use muser_console.Stream.Bridge.Laws.{of_browser, of_engine, wires, upstream_wires, bridge-All}
use muser_console.Tests.Data.{plain, config, console}
use muser_console.Tests.Routes.{gx, wire, request, uri}

-- a console on loopback with one instance
abbrev local : AppState
local = record console {
  config = record config {
    listen = record { text = codes "127.0.0.1:5959"; is_loopback = true };
    instances = gx ∷ [];
  };
}

instance_proxied-sent_example :
    let sent = (instance_proxied plain wire local request false 5).1.0 in
    (sent ≡ [])
    ⊎ ((i : Instance) × (rest : Text) × (up : Request) × ((rejection plain local request 5).1
          ≡ none)
        × Names local.config (full_path uri) i rest
        × (upstream_request plain wire i request rest ≡ some up)
        × (sent ≡ record { instance_of = i; streaming = false; request = up } ∷ []))
instance_proxied-sent_example = instance_proxied-sent plain wire local request false 5

abbrev stranger : Request
stranger = record { method = codes "GET"; uri = uri; headers = []; body = [] }

unauthorised : (rejection plain local stranger 5).1 ≡ some auth_required
unfolding rejection read_rejection authorized_read valid_session valid_bearer cookie_value
    cookie_headers cookie_parts request_origin single_header
unauthorised = refl

unauthorised_mint : (mutation_rejection plain local [] 5).1 ≡ some auth_required
unfolding mutation_rejection authorized_mutation valid_session valid_bearer cookie_value
    cookie_headers cookie_parts request_origin single_header
unauthorised_mint = refl

abbrev elsewhere : Uri
elsewhere = record { authority = none; path_and_query = some (codes "/i/mac/snapshot") }

instance_routes-blind_example :
    (instance_proxied plain wire local stranger false 5
      ≡ instance_proxied plain wire local (record stranger { uri = elsewhere }) false 5)
    × (mint_instance plain local stranger (some (codes "u")) 5 6
        ≡ mint_instance plain local (record stranger { uri = elsewhere }) (some (codes "u")) 5 6)
instance_routes-blind_example =
    instance_routes-blind plain wire local stranger uri elsewhere false (some (codes "u")) 5 6
      auth_required auth_required unauthorised unauthorised_mint

abbrev stream_uri : Uri
stream_uri = record { authority = none; path_and_query = some (codes "/i/gx/stream?ticket=u") }

abbrev other_uri : Uri
other_uri = record { authority = none; path_and_query = some (codes "/i/mac/stream?ticket=u") }

stream_for_iff_example :
    ((stream_for console stream_uri (codes "gx") 5).1 ≡ on_upgrade (codes "gx")) ↔ (
      (ticket : Text) × IsTicketQuery (codes "ticket=u") ticket
      × Redeemable ticket (codes "gx") 5 console.tickets)
stream_for_iff_example = stream_for_iff console stream_uri (codes "gx") (codes "ticket=u") 5 refl

gx_stream : split_instance (path stream_uri) ≡ some (codes "gx", codes "/stream")
unfolding split_instance
gx_stream = refl

mac_stream : split_instance (path other_uri) ≡ some (codes "mac", codes "/stream")
unfolding split_instance
mac_stream = refl

abbrev no_tickets : AppState
no_tickets = record local { tickets = [] }

abbrev ticket_uri : Uri
ticket_uri = record { authority = none; path_and_query = some (codes "/i/gx/v1/ws-tickets") }

abbrev ticket_request : Request
ticket_request = record request { method = codes "POST"; uri = ticket_uri }

may_mint : (mutation_rejection plain local ticket_request.headers 5).1 ≡ none
unfolding mutation_rejection authorized_mutation valid_bearer constant_time_eq
may_mint = refl

ticket_path : split_instance (path ticket_uri) ≡ some (codes "gx", codes "/v1/ws-tickets")
unfolding split_instance
ticket_path = refl

mint_instance-stream_instance_example :
    let (s', reply) = mint_instance plain local ticket_request (some (codes "u")) 5 6 in
    let (s'', answer) = stream_instance s' stream_uri 7 in
    (reply ≡ ticket_value (codes "u"))
    × (answer ≡ on_upgrade (codes "gx"))
    × ((stream_instance s'' stream_uri 8).1 ≡ auth_required)
mint_instance-stream_instance_example =
    mint_instance-stream_instance plain local ticket_request gx (codes "/v1/ws-tickets")
      (codes "/stream") (codes "u") 5 6 7 8 stream_uri may_mint ticket_path refl gx_stream refl
      (refl, tt) (omega arith)

abbrev turns : List Turn
turns =
    from_browser (some (text (codes "a"))) true
    ∷ (from_engine (some (up_frame [])) true
        ∷ (from_browser (some (close none)) true
            ∷ (from_engine (some (up_text (codes "b"))) true ∷ [])))

abbrev passing : List Turn
passing =
    from_browser (some (ping (1 ∷ []))) true ∷ (from_engine (some (up_text (codes "x"))) true ∷ [])

bridge-All_example :
    (upstream_wires (bridge (some passing)).0 ≡ wires (of_browser passing))
    × (wires (bridge (some passing)).1 ≡ upstream_wires (of_engine passing))
bridge-All_example = bridge-All passing ((refl, refl), ((refl, refl), tt))

-- a login from the console's own page, and what follows it
abbrev login_headers : HeaderMap
login_headers =
    (codes "host", codes "h")
    ∷ ((codes "origin", codes "https://h") ∷ ((codes "authorization", codes "Bearer key") ∷ []))

abbrev login : Request
login = record {
  method = codes "POST";
  uri = record {
    authority = some (codes "h");
    path_and_query = some (codes "/v1/dashboard/login");
  };
  headers = login_headers;
  body = [];
}

valid_login_origin_iff_example :
    (valid_login_origin plain login_headers ≡ some (codes "https://h")) ↔ (
      (request_origin plain login_headers ≡ some (codes "https://h"))
      × (single_header plain login_headers (codes "origin") ≡ some (codes "https://h")))
valid_login_origin_iff_example = valid_login_origin_iff plain login_headers (codes "https://h")

normalized : normalize_authority plain login ≡ accepted login
unfolding normalize_authority single_header
normalized = refl

normalize_authority-Agrees_example :
    (single_header plain login_headers (codes "host") ≡ some (codes "h"))
    × ((name : Text)
        → text_eq name (codes "host") ≡ false
        → get_all login_headers name ≡ get_all login_headers name)
normalize_authority-Agrees_example =
    normalize_authority-Agrees plain (λ t v e. sym e) login login (codes "h") refl normalized

abbrev page : HeaderMap
page =
    (codes "host", codes "h")
    ∷ ((codes "origin", codes "https://h")
        ∷ ((codes "cookie", codes "muser_console_session=abc")
            ∷ ((codes "x-csrf-token", codes "tok") ∷ [])))

page-credentials : credentials plain console page ≡ some (codes "abc", codes "https://h")
unfolding cookie_value cookie_headers cookie_parts request_origin single_header
page-credentials = refl

-- a device at home, and 32 bytes
abbrev home : IpAddr
home = v4 (record { a = 192; b = 168; c = 1; d = 7 })

pairing_peer_allowed_iff_example : (pairing_peer_allowed home ≡ true) ↔ Local home
pairing_peer_allowed_iff_example =
    pairing_peer_allowed_iff home (omega arith, omega arith, omega arith, omega arith)

abbrev raw : List ℕ
raw = codes "0123456789abcdef0123456789abcdef"

abbrev qr_code : Text → Option QrCode
qr_code t = some (record { size = 1; get_module = λ x y. true })

-- the console once the session is open
abbrev entered : AppState
entered =
    (mint_session plain console (codes "https://h") (some (codes "abc")) (some (codes "tok")) 5).0

abbrev waiting : AppState
waiting = record console {
  pairings =
      record {
        id = codes "id";
        token_hash = raw;
        issuer_hash = [];
        expiry = 100;
        origin = codes "https://h";
      }
      ∷ [];
}

redeemed :
    (pairing_redeem plain waiting home login_headers raw
      (some (codes "x"))
      (some (codes "y"))
      9
      10).1.status
    ≡ 200
unfolding pairing_redeem pairing_enabled valid_login_origin single_header pairing_peer_allowed
    pairing_v4_allowed consume_pairing consume_pairing_at constant_time_eq mint_session
redeemed = refl

pairing_redeem_sound_example :
    (origin : Text) × (bytes : List ℕ) × (pairing_enabled waiting ≡ true)
    × (valid_login_origin plain login_headers ≡ some origin)
    × (pairing_peer_allowed home ≡ true)
    × (raw_of plain raw ≡ some bytes)
    × Pending (plain.sha256 bytes) origin 9 waiting.pairings
pairing_redeem_sound_example =
    pairing_redeem_sound plain waiting home login_headers raw (some (codes "x")) (some (codes "y"))
      9 10 redeemed
