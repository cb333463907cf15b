-- ===== src/State/Sessions/Laws.antt =====
-- Which requests the sessions of crates/console-server/src/state.rs authorise.
use muser_console.Base.{
  ℕ, ◌+◌, ◌<◌, Bool, true, false, ltb, ltb→lt, lt→ltb, ◌&&◌, and_split, and_join, Text, text_eq,
  text_eq_refl, List, [], ◌∷◌, Option, none, some, find, Any, Bool-cases, Option-cases, ◌≡◌, ◌↔◌,
  ◌⊎◌, refl, inl, inr, arith, if◌then◌else◌,
}
use muser_console.Auth.Compare.{constant_time_eq, constant_time_eq_iff}
use muser_console.Http.{Http, HeaderMap}
use muser_console.State.Types.{AppState, Session, session_ttl}
use muser_console.State.Maps.{map_insert, map_remove}
use muser_console.State.Sessions.{
  ok, live_sessions, mint_session, bears, credentials, valid_session, loopback_bearer,
  authorized_read, csrf_matches, by_session, authorized_mutation,
}

-- The list holds a session with this token, origin and CSRF value that has not expired.
abbrev pub Holds : Text → Text → Text → ℕ → List (Text × Session) → Type 0
Holds token origin csrf now = Any (λ (e : Text × Session).
    (e.0 ≡ token) × (e.1.origin ≡ origin) × (e.1.csrf ≡ csrf) × (now < e.1.expiry))

module _ (http : Http) where
  pub bears_iff :
      (token origin : Text) (e : Text × Session)
      → (bears http token origin e ≡ true) ↔ ((e.0 ≡ token) × (e.1.origin ≡ origin))
  bears_iff token origin (t, entry) = (
    λ h.
        let (a, b) = and_split (constant_time_eq t token) _ h in
        ((constant_time_eq_iff t token).0 a, (constant_time_eq_iff entry.origin origin).0 b),
    λ (a, b).
        ground (
          arith,
          (constant_time_eq_iff t token).1 a,
          (constant_time_eq_iff entry.origin origin).1 b,
        ),
  )

  found-Holds :
      (token origin : Text) (now : ℕ) (m : List (Text × Session)) (e : Text × Session)
      → find (bears http token origin) (live_sessions now m) ≡ some e
      → Holds token origin e.1.csrf now m
  found-Holds token origin now [] e h = cc
  found-Holds token origin now (x ∷ m) e h = elim (Bool-cases (ltb now x.1.expiry)) [
    | inr dead ↦ inr (found-Holds token origin now m e (rw dead at h))
    | inl live ↦ elim (Bool-cases (bears http token origin x)) [
      | inl hit ↦
          let (a, b) = (bears_iff token origin x).0 hit in
          let same : some x ≡ some e = rw (live, hit) at h in
          inl (a, b, cc same, ltb→lt now x.1.expiry live)
      | inr miss ↦ inr (found-Holds token origin now m e (rw (live, miss) at h))
    ]
  ]

  -- A session is recognised only on a console with TLS, by exactly one session cookie and a well-formed
  -- host, and only if the store holds an unexpired session with that token, bound to that origin.
  pub valid_session_sound :
      (s : AppState) (headers : HeaderMap) (now : ℕ) (csrf : Text)
      → (valid_session http s headers now).1 ≡ some csrf
      → (token : Text) × (origin : Text) × (credentials http s headers ≡ some (token, origin))
        × Holds token origin csrf now s.sessions
  unfolding valid_session
  valid_session_sound s headers now csrf h = elim (Option-cases (credentials http s headers)) [
    | inl missing ↦ cc (rw (missing, valid_session) at h)
    | inr ((token, origin), given) ↦
        elim (Option-cases (find (bears http token origin) (live_sessions now s.sessions))) [
          | inl unknown ↦ cc (rw (given, valid_session, unknown) at h)
          | inr (e, hit) ↦
              let same : some e.1.csrf ≡ some csrf = rw (given, valid_session, hit) at h in
              let c : e.1.csrf ≡ csrf = cc same in
              (token, origin, given, rw c at (found-Holds token origin now s.sessions e hit))
        ]
  ]

  by_session_ok :
      (headers : HeaderMap) (r : AppState × Option Text)
      → (by_session http headers r).1 ≡ ok
      → (csrf : Text) × (r.1 ≡ some csrf) × (csrf_matches http headers csrf ≡ true)
  by_session_ok headers (s, none) h = cc
  by_session_ok headers (s, some csrf) h = (csrf, refl, ground (arith, h))

  -- A mutation is authorised only by the access key on a loopback listener, or by a live session of the
  -- request's own origin whose CSRF value the request carries.
  pub authorized_mutation_sound :
      (s : AppState) (headers : HeaderMap) (now : ℕ)
      → (authorized_mutation http s headers now).1 ≡ ok
      → (loopback_bearer http s headers ≡ true)
        ⊎ ((token : Text) × (origin : Text) × (csrf : Text) × (credentials http s headers
              ≡ some (token, origin))
            × Holds token origin csrf now s.sessions
            × (csrf_matches http headers csrf ≡ true))
  unfolding authorized_mutation
  authorized_mutation_sound s headers now h = elim (Bool-cases (loopback_bearer http s headers)) [
    | inl key ↦ inl key
    | inr no_key ↦
        let (csrf, known, matches) =
          by_session_ok headers (valid_session http s headers now) (rw no_key at h) in
        let (token, origin, given, holds) = valid_session_sound s headers now csrf known in
        inr (token, origin, csrf, given, holds, matches)
  ]

  -- A read is authorised in no other way than by the access key on a loopback listener or by a live
  -- session of the request's own origin: off loopback, the access key alone reads nothing.
  pub authorized_read_sound :
      (s : AppState) (headers : HeaderMap) (now : ℕ)
      → (authorized_read http s headers now).1 ≡ true
      → (loopback_bearer http s headers ≡ true)
        ⊎ ((token : Text) × (origin : Text) × (csrf : Text) × (credentials http s headers
              ≡ some (token, origin))
            × Holds token origin csrf now s.sessions)
  unfolding authorized_read
  authorized_read_sound s headers now h = elim (Bool-cases (loopback_bearer http s headers)) [
    | inl key ↦ inl key
    | inr no_key ↦ elim (Option-cases (valid_session http s headers now).1) [
      | inl unknown ↦ cc (rw (no_key, unknown) at h)
      | inr (csrf, known) ↦
          let (token, origin, given, holds) = valid_session_sound s headers now csrf known in
          inr (token, origin, csrf, given, holds)
    ]
  ]

  removed-not_found :
      (token origin : Text) (now : ℕ) (m : List (Text × Session))
      → find (bears http token origin) (live_sessions now (map_remove token m)) ≡ none
  removed-not_found token origin now [] = refl
  removed-not_found token origin now ((t, v) ∷ m) = elim (Bool-cases (text_eq t token)) [
    | inl same ↦ rw same (removed-not_found token origin now m)
    | inr other ↦ elim (Bool-cases (bears http token origin (t, v))) [
      | inl hit ↦ cc (rw (((bears_iff token origin (t, v)).0 hit).0, text_eq_refl token) at other)
      | inr miss ↦ ground (arith, other, miss, removed-not_found token origin now m)
    ]
  ]

  minted_lookup :
      (token origin o : Text) (entry : Session) (now : ℕ) (m : List (Text × Session))
      → entry.origin ≡ origin
      → find (bears http token o) (live_sessions now (map_insert token entry m))
        ≡ (if ltb now entry.expiry && constant_time_eq origin o then some (token, entry) else none)
  minted_lookup token origin o entry now m e =
      ground (arith, removed-not_found token o now m, (constant_time_eq_iff token token).1 refl, e)

  -- what the request's credentials find in the state after the mint
  minted_session :
      (s : AppState) (origin o : Text) (tb cb : List ℕ) (minted now : ℕ) (headers : HeaderMap)
      → credentials http s headers ≡ some (http.encode tb, o)
      → (valid_session http (mint_session http s origin (some tb) (some cb) minted).0 headers now).1
        ≡ (if ltb now (minted + session_ttl) && constant_time_eq origin o
            then some (http.encode cb)
            else none)
  unfolding valid_session mint_session
  minted_session s origin o tb cb minted now headers given =
      let entry : Session = record {
        expiry = minted + session_ttl;
        csrf = http.encode cb;
        origin = origin;
      } in
      ground (
        arith,
        given,
        minted_lookup (http.encode tb) origin o entry now (live_sessions minted s.sessions) refl,
      )

  outcome_iff :
      (headers : HeaderMap) (r : AppState × Option Text) (b : Bool) (csrf : Text)
      → r.1 ≡ (if b then some csrf else none)
      → ((by_session http headers r).1 ≡ ok)
        ↔ ((b ≡ true) × (csrf_matches http headers csrf ≡ true))
  outcome_iff headers (s, none) true csrf e = (λ h. cc, λ h. cc)
  outcome_iff headers (s, some c) true csrf e =
      (λ h. (refl, ground (arith, h, e)), λ h. ground (arith, h, e))
  outcome_iff headers (s, none) false csrf e = (λ h. cc, λ h. cc)
  outcome_iff headers (s, some c) false csrf e = (λ h. cc, λ h. cc)

  -- After a session is minted for an origin, a request that carries its token and comes from `o` may
  -- mutate, where the access key does not already allow it, if and only if `o` is that origin, the hour
  -- has not passed and the request carries the CSRF value of the mint.
  pub mint_session-authorized_mutation_iff :
      (s : AppState) (origin o : Text) (token_bytes csrf_bytes : List ℕ) (minted now : ℕ)
      (headers : HeaderMap)
      → credentials http s headers ≡ some (http.encode token_bytes, o)
      → loopback_bearer http s headers ≡ false
      → let s' = (mint_session http s origin (some token_bytes) (some csrf_bytes) minted).0 in
        ((authorized_mutation http s' headers now).1 ≡ ok) ↔ (
          (origin ≡ o)
          × (now < minted + session_ttl)
          × (csrf_matches http headers (http.encode csrf_bytes) ≡ true))
  unfolding authorized_mutation mint_session
  mint_session-authorized_mutation_iff s origin o tb cb minted now headers given no_key =
      let m = ltb now (minted + session_ttl) && constant_time_eq origin o in
      let s' = (mint_session http s origin (some tb) (some cb) minted).0 in
      let (there, back) =
        outcome_iff headers (valid_session http s' headers now) m (http.encode cb)
          (minted_session s origin o tb cb minted now headers given) in
      (
        λ h.
            let (a, b) = there (rw no_key at h) in
            let (x, y) = and_split (ltb now (minted + session_ttl)) (constant_time_eq origin o) a in
            ((constant_time_eq_iff origin o).0 y, ltb→lt now (minted + session_ttl) x, b),
        λ (e, l, c). rw no_key (
            back (
              and_join (ltb now (minted + session_ttl)) _ (lt→ltb now _ l)
                  ((constant_time_eq_iff origin o).1 e),
              c,
            )),
      )
