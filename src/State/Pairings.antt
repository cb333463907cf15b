-- ===== src/State/Pairings.antt =====
-- The device pairings of crates/console-server/src/state.rs: `mint_pairing`, `consume_pairing`,
-- `consume_pairing_at` and `revoke_pairing`.
pub mod Laws
pub mod Evict
pub mod Cap
use muser_console.Base.{
  ℕ, zero, suc, ◌+◌, Bool, true, false, ltb, leb, ◌&&◌, Text, List, [], ◌∷◌, ◌++◌, Option, none,
  some, is_some, any, length, retain, remove_first, count_if, if◌then◌else◌,
}
use muser_console.Auth.Compare.{constant_time_eq}
use muser_console.Http.{Http, HeaderMap}
use muser_console.State.Types.{
  AppState, Pairing, MintedPairing, pairing_ttl, max_pairings_per_session, session_cookie,
}
use muser_console.State.Headers.{cookie_value}
use muser_console.State.Sessions.{valid_session}

abbrev pub live_pairings : ℕ → List Pairing → List Pairing
live_pairings now pairings = retain (λ entry. ltb now entry.expiry) pairings

abbrev pub issued_by : List ℕ → Pairing → Bool
issued_by issuer_hash entry = constant_time_eq entry.issuer_hash issuer_hash

-- The `while` loop of `mint_pairing`, with fuel: the oldest pairing of the issuer goes until fewer than
-- five are left. Without one the loop breaks.
unfoldable pub evict : ℕ → List ℕ → List Pairing → List Pairing
evict zero issuer_hash pairings = pairings
evict (suc fuel) issuer_hash pairings =
    elim (leb max_pairings_per_session (count_if (issued_by issuer_hash) pairings)) [
      | false ↦ pairings
      | true ↦ elim (any (issued_by issuer_hash) pairings) [
        | false ↦ pairings
        | true ↦ evict fuel issuer_hash (remove_first (issued_by issuer_hash) pairings)
      ]
    ]

-- Whether `consume_pairing_at` takes this entry.
abbrev pub redeems : List ℕ → Text → Pairing → Bool
redeems candidate_hash origin entry =
    constant_time_eq entry.token_hash candidate_hash && constant_time_eq entry.origin origin

unfoldable pub consume_pairing_at : List Pairing → List ℕ → Text → ℕ → List Pairing × Bool
consume_pairing_at pairings candidate_hash origin now =
    let live = live_pairings now pairings in
    if any (redeems candidate_hash origin) live
    then (remove_first (redeems candidate_hash origin) live, true)
    else (live, false)

abbrev pub revokes : Text → List ℕ → Pairing → Bool
revokes id issuer_hash entry =
    constant_time_eq entry.id id && constant_time_eq entry.issuer_hash issuer_hash

pub data Minted : Type 0 where
  entropy_error : Minted
  refused : Minted
  minted : MintedPairing → Minted

module _ (http : Http) where
  -- what `mint_pairing` does to the pairings once the session and the entropy are there
  abbrev pub add_pairing : List Pairing → List ℕ → Text → List ℕ → List ℕ → ℕ → List Pairing
  add_pairing pairings issuer_hash origin raw_token raw_id now =
      let live = live_pairings now pairings in
      let entry : Pairing = record {
        id = http.encode raw_id;
        token_hash = http.sha256 raw_token;
        issuer_hash = issuer_hash;
        expiry = now + pairing_ttl;
        origin = origin;
      } in
      evict (suc (length live)) issuer_hash live ++ entry ∷ []

  -- the draws of the two random values, then the mint; `none` is a failed `getrandom::fill`
  abbrev pub mint_with :
      AppState → Text → Text → Option (List ℕ) → Option (List ℕ) → ℕ → AppState × Minted
  mint_with s session_token origin none raw_id now = (s, entropy_error)
  mint_with s session_token origin (some token) none now = (s, entropy_error)
  mint_with s session_token origin (some token) (some id) now = (
    record s { pairings = add_pairing s.pairings (http.sha256 session_token) origin token id now },
    minted (record { id = http.encode id; token = http.encode token }),
  )

  -- `checked` is the instant at which `valid_session` looks, `now` the later one of the pairings' change.
  unfoldable pub mint_pairing :
      AppState → HeaderMap → Text → Option (List ℕ) → Option (List ℕ) → ℕ → ℕ → AppState × Minted
  mint_pairing s headers origin raw_token raw_id checked now =
      elim (cookie_value http headers session_cookie) [
        | none ↦ (s, refused)
        | some session_token ↦
            let (s', csrf) = valid_session http s headers checked in
            elim csrf [
              | none ↦ (s', refused)
              | some _ ↦ mint_with s' session_token origin raw_token raw_id now
            ]
      ]

  unfoldable pub consume_pairing : AppState → List ℕ → Text → ℕ → AppState × Bool
  unfolding consume_pairing_at
  consume_pairing s raw_token origin now =
      let (pairings, spent) = consume_pairing_at s.pairings (http.sha256 raw_token) origin now in
      (record s { pairings = pairings }, spent)

  unfoldable pub revoke_pairing : AppState → HeaderMap → Text → ℕ → ℕ → AppState × Bool
  revoke_pairing s headers id checked now = elim (cookie_value http headers session_cookie) [
    | none ↦ (s, false)
    | some session_token ↦
        let (s', csrf) = valid_session http s headers checked in
        elim csrf [
          | none ↦ (s', false)
          | some _ ↦
              let live = live_pairings now s'.pairings in
              let mine = revokes id (http.sha256 session_token) in
              if any mine live
              then (record s' { pairings = remove_first mine live }, true)
              else (record s' { pairings = live }, false)
        ]
  ]
