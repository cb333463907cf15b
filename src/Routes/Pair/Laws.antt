-- ===== src/Routes/Pair/Laws.antt =====
-- The pairing of a device through crates/console-server/src/routes.rs, from the mint to the session.
use muser_console.Base.{
  ℕ, Bool, true, false, Text, List, Option, none, some, Bool-cases, Option-cases, ◌≡◌, refl, inl,
  inr, arith,
}
use muser_console.Http.{Http, HeaderMap}
use muser_console.State.Types.{AppState}
use muser_console.State.Pairings.{consume_pairing}
use muser_console.State.Pairings.Laws.{Pending, consume_pairing_iff}
use muser_console.Reply.{Response}
use muser_console.Routes.Origin.{valid_login_origin}
use muser_console.Routes.Peers.{IpAddr, pairing_peer_allowed}
use muser_console.Routes.Pair.{
  foreign_origin, distant_peer, invalid_pairing, pairing_enabled, raw_of, redeemed_session,
  pairing_redeem,
}

module _ (http : Http) where
  redeemed_status :
      (r : AppState × Bool) (origin : Text) (token csrf : Option (List ℕ)) (now : ℕ)
      → (redeemed_session http r origin token csrf now).1.status ≡ 200
      → r.1 ≡ true
  redeemed_status (s, true) origin token csrf now h = refl
  redeemed_status (s, false) origin token csrf now h = absurd (omega (arith, h))

  -- A device gets a session by a pairing only on a console with TLS that listens beyond loopback, from the
  -- origin of the console, from an admitted address, and with the 32 bytes of a pairing that is pending for
  -- that origin.
  pub pairing_redeem_sound :
      (s : AppState) (peer : IpAddr) (headers : HeaderMap) (token : Text)
      (session_bytes csrf_bytes : Option (List ℕ)) (now minted_at : ℕ)
      → (pairing_redeem http s peer headers token session_bytes csrf_bytes now minted_at).1.status
        ≡ 200
      → (origin : Text) × (raw : List ℕ) × (pairing_enabled s ≡ true)
        × (valid_login_origin http headers ≡ some origin)
        × (pairing_peer_allowed peer ≡ true)
        × (raw_of http token ≡ some raw)
        × Pending (http.sha256 raw) origin now s.pairings
  unfolding pairing_redeem
  pairing_redeem_sound s peer headers token sb cb now minted_at h =
      elim (Bool-cases (pairing_enabled s)) [
        | inr e ↦ absurd (let x : 400 ≡ 200 = rw (pairing_redeem, e) at h in omega (arith, x))
        | inl e ↦ elim (Option-cases (valid_login_origin http headers)) [
          | inl f ↦ absurd (let x : 403 ≡ 200 = rw (pairing_redeem, e, f) at h in omega (arith, x))
          | inr (origin, f) ↦ elim (Bool-cases (pairing_peer_allowed peer)) [
            | inr g ↦
                absurd (let x : 403 ≡ 200 = rw (pairing_redeem, e, f, g) at h in omega (arith, x))
            | inl g ↦ elim (Option-cases (raw_of http token)) [
              | inl k ↦
                  absurd
                    (let x : 400 ≡ 200 = rw (pairing_redeem, e, f, g, k) at h in omega (arith, x))
              | inr (raw, k) ↦ (
                origin,
                raw,
                e,
                f,
                g,
                k,
                (consume_pairing_iff http s raw origin now).0 (
                    redeemed_status (consume_pairing http s raw origin now) origin sb cb minted_at
                      (rw (pairing_redeem, e, f, g, k) at h)),
              )
            ]
          ]
        ]
      ]

abbrev pub spent_by : Option Text → Bool → Response
spent_by none near = foreign_origin
spent_by (some origin) true = invalid_pairing
spent_by (some origin) false = distant_peer

module _ (http : Http) where
  -- what a presentation of a spent token is told, by its origin and its address
  abbrev pub spent_answer : HeaderMap → IpAddr → Response
  spent_answer headers peer = spent_by (valid_login_origin http headers) (pairing_peer_allowed peer)
