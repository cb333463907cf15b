-- ===== src/Stream/Bridge/Laws.antt =====
-- The messages that the bridge of crates/console-server/src/ws.rs relays, and the URL it connects to.
use muser_console.Base.{
  ℕ, Text, codes, ◌∙◌, Option, true, false, List, [], ◌∷◌, ◌++◌, map, All, none, some, Option-cases,
  ◌≡◌, refl, ap, inl, inr,
}
use muser_console.Stream.Bridge.{
  Message, text, binary, ping, pong, close, UpstreamMessage, up_text, up_binary, up_ping, up_pong,
  up_close, up_frame, bridge, to_upstream, to_downstream, is_close, is_up_close, Turn, from_browser,
  from_engine, relay,
}

-- what the browser sent and what the engine sent, in order
abbrev pub of_browser : List Turn → List Message
of_browser [] = []
of_browser (from_browser (some m) sent ∷ turns) = m ∷ of_browser turns
of_browser (from_browser none sent ∷ turns) = of_browser turns
of_browser (from_engine _ sent ∷ turns) = of_browser turns

abbrev pub of_engine : List Turn → List UpstreamMessage
of_engine [] = []
of_engine (from_engine (some m) sent ∷ turns) = m ∷ of_engine turns
of_engine (from_engine none sent ∷ turns) = of_engine turns
of_engine (from_browser _ sent ∷ turns) = of_engine turns

-- all that a message of the engine can be for a browser
abbrev pub convertible : List UpstreamMessage → List Message
convertible [] = []
convertible (m ∷ ms) = elim (to_downstream m) [
  | none ↦ convertible ms
  | some converted ↦ converted ∷ convertible ms
]

abbrev pub IsPrefix {ℓ} : {A : Type ℓ} → List A → List A → Type ℓ
IsPrefix {A = A} xs ys = (rest : List A) × (xs ++ rest ≡ ys)

-- a turn with a message that does not close, and whose send succeeds
abbrev pub Passes : Turn → Type 0
Passes (from_browser none sent) = ⊥
Passes (from_browser (some m) sent) = (sent ≡ true) × (is_close m ≡ false)
Passes (from_engine none sent) = ⊥
Passes (from_engine (some m) sent) = (sent ≡ true) × (is_up_close m ≡ false)

-- While no side closes or fails, everything is relayed.
relay-All :
    (turns : List Turn)
    → All Passes turns
    → relay turns ≡ (map to_upstream (of_browser turns), convertible (of_engine turns))
relay-All [] h = refl
relay-All (from_browser none sent ∷ turns) (h, _) = absurd h
relay-All (from_engine none sent ∷ turns) (h, _) = absurd h
relay-All (from_browser (some m) sent ∷ turns) ((a, b), h) =
    rw (relay, a, b, relay-All turns h) refl
relay-All (from_engine (some m) sent ∷ turns) ((a, b), h) = elim (Option-cases (to_downstream m)) [
  | inl f ↦ rw (relay, f, convertible, relay-All turns h) refl
  | inr (c, f) ↦ rw (relay, f, a, b, convertible, relay-All turns h) refl
]

-- A frame on the wire: its opcode in RFC 6455, its bytes or characters, and a close's code and reason.
pub record Wire : Type 0 where
  pub opcode : ℕ
  pub content : List ℕ
  pub reason : Option (ℕ × Text)

abbrev pub of_message : Message → Wire
of_message (text t) = record { opcode = 1; content = t; reason = none }
of_message (binary bytes) = record { opcode = 2; content = bytes; reason = none }
of_message (close frame) = record { opcode = 8; content = []; reason = frame }
of_message (ping bytes) = record { opcode = 9; content = bytes; reason = none }
of_message (pong bytes) = record { opcode = 10; content = bytes; reason = none }

-- a raw frame is none of these
abbrev pub of_upstream : UpstreamMessage → List Wire
of_upstream (up_text t) = record { opcode = 1; content = t; reason = none } ∷ []
of_upstream (up_binary bytes) = record { opcode = 2; content = bytes; reason = none } ∷ []
of_upstream (up_close frame) = record { opcode = 8; content = []; reason = frame } ∷ []
of_upstream (up_ping bytes) = record { opcode = 9; content = bytes; reason = none } ∷ []
of_upstream (up_pong bytes) = record { opcode = 10; content = bytes; reason = none } ∷ []
of_upstream (up_frame bytes) = []

abbrev pub wires : List Message → List Wire
wires [] = []
wires (m ∷ ms) = of_message m ∷ wires ms

abbrev pub upstream_wires : List UpstreamMessage → List Wire
upstream_wires [] = []
upstream_wires (m ∷ ms) = of_upstream m ++ upstream_wires ms

to_upstream-wire :
    (m : Message) (rest : List Wire) → (of_upstream (to_upstream m) ++ rest) ≡ (of_message m ∷ rest)
to_upstream-wire (text t) rest = refl
to_upstream-wire (binary bytes) rest = refl
to_upstream-wire (ping bytes) rest = refl
to_upstream-wire (pong bytes) rest = refl
to_upstream-wire (close frame) rest = refl

upstream_wires-to_upstream : (ms : List Message) → upstream_wires (map to_upstream ms) ≡ wires ms
upstream_wires-to_upstream [] = refl
upstream_wires-to_upstream (m ∷ ms) =
    to_upstream-wire m (upstream_wires (map to_upstream ms))
    ∙ ap (◌∷◌ (of_message m)) (upstream_wires-to_upstream ms)

wires-convertible : (ms : List UpstreamMessage) → wires (convertible ms) ≡ upstream_wires ms
wires-convertible [] = refl
wires-convertible (up_text t ∷ ms) = ap (◌∷◌ (of_message (text t))) (wires-convertible ms)
wires-convertible (up_binary b ∷ ms) = ap (◌∷◌ (of_message (binary b))) (wires-convertible ms)
wires-convertible (up_ping b ∷ ms) = ap (◌∷◌ (of_message (ping b))) (wires-convertible ms)
wires-convertible (up_pong b ∷ ms) = ap (◌∷◌ (of_message (pong b))) (wires-convertible ms)
wires-convertible (up_close f ∷ ms) = ap (◌∷◌ (of_message (close f))) (wires-convertible ms)
wires-convertible (up_frame b ∷ ms) = wires-convertible ms

-- what the bridge does to the wires of both sides
abbrev pub Relays : Option (List Turn) → Type 0
Relays none =
    ((bridge none).0 ≡ [])
    × (wires (bridge none).1
        ≡ record {
          opcode = 8;
          content = [];
          reason = some (1008, codes "upstream stream unavailable");
        }
          ∷ [])
Relays (some turns) =
    IsPrefix (upstream_wires (bridge (some turns)).0) (wires (of_browser turns))
    × IsPrefix (wires (bridge (some turns)).1) (upstream_wires (of_engine turns))

-- While no side closes or fails, every frame of both sides gets through, in order and with its opcode and
-- content, but for the raw frames of the engine.
pub bridge-All :
    (turns : List Turn)
    → All Passes turns
    → (upstream_wires (bridge (some turns)).0 ≡ wires (of_browser turns))
      × (wires (bridge (some turns)).1 ≡ upstream_wires (of_engine turns))
unfolding bridge
bridge-All turns h =
    let whole = relay-All turns h in
    (
      ap (λ (r : List UpstreamMessage × List Message). upstream_wires r.0) whole
          ∙ upstream_wires-to_upstream (of_browser turns),
      ap (λ (r : List UpstreamMessage × List Message). wires r.1) whole
          ∙ wires-convertible (of_engine turns),
    )
