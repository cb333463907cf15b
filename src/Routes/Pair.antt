-- ===== src/Routes/Pair.antt =====
-- The pairing of a device over HTTP, in crates/console-server/src/routes.rs: `pairing_mint`,
-- `pairing_revoke` and `pairing_redeem`. The QR code of a text is a parameter.
pub mod Laws
use Prim.Native.Nat.{bit_or}
use muser_console.Base.{
  ℕ, zero, suc, ◌+◌, ◌-◌, ◌*◌, ◌/◌, ◌%◌, ◌^◌, ◌==◌, ltb, Bool, true, false, not, ◌&&◌, ◌||◌, Text,
  codes, byte_length, List, [], ◌∷◌, ◌++◌, length, Option, none, some, is_some, ◌>>=◌,
  if◌then◌else◌,
}
use muser_console.Http.{Http, HeaderMap}
use muser_console.State.Types.{AppState, MintedPairing}
use muser_console.State.Pairings.{
  Minted, entropy_error, refused, minted, mint_pairing, consume_pairing, revoke_pairing,
}
use muser_console.State.Sessions.{mint_session}
use muser_console.Reply.{
  Response, Value, string, number, boolean, object, no_field, field, json_response, error_json,
  auth_required, mutation_rejection, unless_rejected,
}
use muser_console.Routes.Origin.{valid_login_origin}
use muser_console.Routes.Peers.{IpAddr, pairing_peer_allowed}
use muser_console.Routes.Login.{no_store, invalid_origin, no_entropy, opened}

-- `QrCode`: its side and the colour at a column and a row
pub record QrCode : Type 0 where
  pub size : ℕ
  pub get_module : ℕ → ℕ → Bool

unfoldable pub pairing_enabled : AppState → Bool
pairing_enabled s = is_some s.config.tls && not s.config.listen.is_loopback

abbrev pub pairing_unavailable : Response
pairing_unavailable = no_store (
    error_json 400 (codes "pairing_unavailable")
      (codes "device pairing requires a non-loopback HTTPS console"))

abbrev pub foreign_origin : Response
foreign_origin =
    no_store (invalid_origin (codes "device pairing requires an exact HTTPS Origin and Host match"))

abbrev pub invalid_pairing : Response
invalid_pairing = no_store (
    error_json 400 (codes "invalid_pairing")
      (codes "pairing is invalid, expired, revoked, or already used"))

abbrev pub distant_peer : Response
distant_peer = no_store (
    error_json 403 (codes "pairing_unavailable")
      (codes "device pairing is available only to a directly connected local peer"))

-- `modules[index] |= mask`
abbrev pub or_at : List ℕ → ℕ → ℕ → List ℕ
or_at [] index mask = []
or_at (byte ∷ rest) zero mask = bit_or byte mask ∷ rest
or_at (byte ∷ rest) (suc index) mask = byte ∷ or_at rest index mask

abbrev pub zeros : ℕ → List ℕ
zeros zero = []
zeros (suc n) = 0 ∷ zeros n

-- the inner loop, over the `left` last columns of a row
abbrev pub pack_row : QrCode → ℕ → ℕ → List ℕ → List ℕ
pack_row qr y zero modules = modules
pack_row qr y (suc left) modules =
    let x = qr.size - suc left in
    let index = y * qr.size + x in
    pack_row qr y left
      (if qr.get_module x y then or_at modules (index / 8) (2 ^ (7 - index % 8)) else modules)

-- the outer loop, over the `left` last rows
abbrev pub pack_rows : QrCode → ℕ → List ℕ → List ℕ
pack_rows qr zero modules = modules
pack_rows qr (suc left) modules =
    pack_rows qr left (pack_row qr (qr.size - suc left) qr.size modules)

abbrev pub pack : QrCode → List ℕ
pack qr = pack_rows qr qr.size (zeros ((qr.size * qr.size + 7) / 8))

module _ (http : Http) (qr_code : Text → Option QrCode) where
  abbrev pub pairing_value : Text → Text → QrCode → Value
  pairing_value id pairing_url qr = object (
      field (codes "id") (string id) (
        field (codes "pairing_url") (string pairing_url) (
          field (codes "expires_in") (number 120) (
            field (codes "qr")
              (object (
                field (codes "size") (number qr.size) (
                  field (codes "quiet_zone") (number 4)
                    (field (codes "modules") (string (http.encode (pack qr))) no_field))))
              no_field))))

  -- the answer by what `mint_pairing` returned
  abbrev pub pairing_answer : Text → Minted → Response
  pairing_answer origin entropy_error = no_store (no_entropy (codes "pairing entropy unavailable"))
  pairing_answer origin refused = no_store auth_required
  pairing_answer origin (minted pairing) =
      let pairing_url = origin ++ (codes "/dashboard#pair=" ++ pairing.token) in
      elim (qr_code pairing_url) [
        | none ↦ no_store (no_entropy (codes "pairing address is too long to encode"))
        | some qr ↦ no_store (json_response 200 (pairing_value pairing.id pairing_url qr))
      ]

  -- `authorised` is the instant of `mutation_rejection`, `checked` and `now` those of `mint_pairing`
  unfoldable pub pairing_mint :
      AppState → HeaderMap → Option (List ℕ) → Option (List ℕ) → ℕ → ℕ → ℕ → AppState × Response
  unfolding pairing_enabled mutation_rejection valid_login_origin mint_pairing
  pairing_mint s headers raw_token raw_id authorised checked now = elim (pairing_enabled s) [
    | false ↦ (s, pairing_unavailable)
    | true ↦ unless_rejected (mutation_rejection http s headers authorised) no_store (λ s'.
        elim (valid_login_origin http headers) [
          | none ↦ (s', foreign_origin)
          | some origin ↦
              let (s'', outcome) =
                mint_pairing http s' headers origin raw_token raw_id checked now in
              (s'', pairing_answer origin outcome)
        ])
  ]

module _ (http : Http) where
  abbrev pub not_pending : Response
  not_pending =
      no_store
        (error_json 400 (codes "invalid_pairing") (codes "pairing is invalid or no longer pending"))

  unfoldable pub pairing_revoke : AppState → HeaderMap → Text → ℕ → ℕ → ℕ → AppState × Response
  unfolding pairing_enabled mutation_rejection valid_login_origin revoke_pairing
  pairing_revoke s headers id authorised checked now = elim (pairing_enabled s) [
    | false ↦ (s, pairing_unavailable)
    | true ↦ unless_rejected (mutation_rejection http s headers authorised) no_store (λ s'.
        elim (valid_login_origin http headers) [
          | none ↦ (s', foreign_origin)
          | some origin ↦ elim (ltb 64 (byte_length id)) [
            | true ↦ (s', not_pending)
            | false ↦
                let (s'', revoked) = revoke_pairing http s' headers id checked now in
                (
                  s'',
                  if revoked
                      then no_store (
                          json_response 200
                            (object (field (codes "revoked") (boolean true) no_field)))
                      else not_pending,
                )
          ]
        ])
  ]

  -- the 32 bytes that a token stands for
  abbrev pub raw_of : Text → Option (List ℕ)
  raw_of token = do bytes ← http.decode token; if length bytes == 32 then some bytes else none

  abbrev pub redeemed_session :
      AppState × Bool → Text → Option (List ℕ) → Option (List ℕ) → ℕ → AppState × Response
  redeemed_session (s, false) origin token csrf now = (s, invalid_pairing)
  redeemed_session (s, true) origin token csrf now =
      opened (mint_session http s origin token csrf now)
        (no_store (no_entropy (codes "session entropy unavailable")))

  unfoldable pub pairing_redeem :
      AppState
      → IpAddr
      → HeaderMap
      → Text
      → Option (List ℕ)
      → Option (List ℕ)
      → ℕ
      → ℕ
      → AppState × Response
  unfolding pairing_enabled valid_login_origin pairing_peer_allowed consume_pairing mint_session
  pairing_redeem s peer headers token session_bytes csrf_bytes now minted_at =
      elim (pairing_enabled s) [
        | false ↦ (s, pairing_unavailable)
        | true ↦ elim (valid_login_origin http headers) [
          | none ↦ (s, foreign_origin)
          | some origin ↦ elim (pairing_peer_allowed peer) [
            | false ↦ (s, distant_peer)
            | true ↦ elim (raw_of token) [
              | none ↦ (s, invalid_pairing)
              | some raw_token ↦
                  redeemed_session (consume_pairing http s raw_token origin now) origin
                    session_bytes csrf_bytes minted_at
            ]
          ]
        ]
      ]
