-- ===== src/Stream/Bridge.antt =====
-- The bridge between a browser and an engine, in crates/console-server/src/ws.rs: the ticket exchange with
-- the engine, the messages in both directions and the loop that relays them. The close code is its number.
pub mod Laws
use muser_console.Base.{
  ℕ, Bool, true, false, not, leb, ltb, ◌&&◌, ◌||◌, Text, codes, List, [], ◌∷◌, ◌++◌, Option, none,
  some, ◌>>=◌, if◌then◌else◌,
}
use muser_console.Config.Types.{Instance}
use muser_console.Float.{Float}
use muser_console.Http.{HeaderMap}
use muser_console.History.Json.{Json}

pub data Message : Type 0 where
  text : Text → Message
  binary : List ℕ → Message
  ping : List ℕ → Message
  pong : List ℕ → Message
  close : Option (ℕ × Text) → Message

pub data UpstreamMessage : Type 0 where
  up_text : Text → UpstreamMessage
  up_binary : List ℕ → UpstreamMessage
  up_ping : List ℕ → UpstreamMessage
  up_pong : List ℕ → UpstreamMessage
  up_close : Option (ℕ × Text) → UpstreamMessage
  up_frame : List ℕ → UpstreamMessage

abbrev pub to_upstream : Message → UpstreamMessage
to_upstream (text t) = up_text t
to_upstream (binary data') = up_binary data'
to_upstream (ping data') = up_ping data'
to_upstream (pong data') = up_pong data'
to_upstream (close frame) = up_close frame

abbrev pub to_downstream : UpstreamMessage → Option Message
to_downstream (up_text t) = some (text t)
to_downstream (up_binary data') = some (binary data')
to_downstream (up_ping data') = some (ping data')
to_downstream (up_pong data') = some (pong data')
to_downstream (up_close frame) = some (close frame)
to_downstream (up_frame _) = none

abbrev pub is_close : Message → Bool
is_close (close _) = true
is_close _ = false

abbrev pub is_up_close : UpstreamMessage → Bool
is_up_close (up_close _) = true
is_up_close _ = false

-- What one turn of `select!` yields: what came from one side, `none` at its end or at an error, and whether
-- the send that follows succeeds.
pub data Turn : Type 0 where
  from_browser : Option Message → Bool → Turn
  from_engine : Option UpstreamMessage → Bool → Turn

-- The loop over the turns: what is given to the engine's side and what to the browser's.
abbrev pub relay : List Turn → List UpstreamMessage × List Message
relay [] = ([], [])
relay (from_browser none sent ∷ turns) = ([], [])
relay (from_browser (some message) sent ∷ turns) =
    let (up, down) = relay turns in
    if not sent || is_close message
    then (to_upstream message ∷ [], [])
    else (to_upstream message ∷ up, down)
relay (from_engine none sent ∷ turns) = ([], [])
relay (from_engine (some message) sent ∷ turns) =
    let (up, down) = relay turns in
    elim (to_downstream message) [
      | none ↦ (up, down)
      | some converted ↦
          if not sent || is_up_close message then ([], converted ∷ []) else (up, converted ∷ down)
    ]

-- The bridge: the loop where the engine is connected, and a close where it is not.
unfoldable pub bridge : Option (List Turn) → List UpstreamMessage × List Message
bridge none = ([], close (some (1008, codes "upstream stream unavailable")) ∷ [])
bridge (some turns) = relay turns

-- The request for an engine's ticket, without its empty body.
pub record TicketRequest : Type 0 where
  pub method : Text
  pub uri : Text
  pub headers : HeaderMap

abbrev pub ticket_request : Instance → TicketRequest
ticket_request i = record {
  method = codes "POST";
  uri = i.base_url ++ codes "/v1/ws-tickets";
  headers = (codes "authorization", i.bearer) ∷ [];
}

-- How the exchange ends: before a response (at the build, at the send or at the time limit), or with one
-- whose body is not read, or is read.
pub data Exchanged : Type 0 where
  no_response : Exchanged
  responded : ℕ → Option (List ℕ) → Exchanged

module _ {float : Float} (json : Json float) where
  -- The engine's ticket from `exchange`; `parse` is `serde_json::from_slice(..).ok()`.
  unfoldable pub engine_ticket : (List ℕ → Option json.Value) → Exchanged → Option Text
  engine_ticket parse no_response = none
  engine_ticket parse (responded status body) =
      if leb 200 status && ltb status 300
      then (do
        bytes ← body
        value ← parse bytes
        ticket ← json.get value (codes "ticket")
        json.as_str ticket)
      else none

  -- the URL that the WebSocket connects to
  abbrev pub stream_url : Instance → Text → Text
  stream_url i ticket =
      (if i.is_https then codes "wss" else codes "ws")
      ++ (codes "://" ++ (i.authority ++ (codes "/stream?ticket=" ++ ticket)))

  -- What `connect_upstream` connects to, if the exchange yields a ticket.
  unfoldable pub connect_upstream :
      (List ℕ → Option json.Value) → (TicketRequest → Exchanged) → Instance → Option Text
  unfolding engine_ticket
  connect_upstream parse exchange i =
      engine_ticket parse (exchange (ticket_request i)) >>= λ ticket. some (stream_url i ticket)
