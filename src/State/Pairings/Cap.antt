-- ===== src/State/Pairings/Cap.antt =====
-- The bound on the pending pairings of one session in crates/console-server/src/state.rs.
use muser_console.Base.{
  ℕ, suc, ◌+◌, ◌≤◌, ◌<◌, Bool, true, false, not, ltb, Text, List, [], ◌∷◌, ◌++◌, Option, none, some,
  any, length, retain, remove_first, count_if, count_if-retain, count_if-append, Bool-cases,
  Option-cases, ◌≡◌, refl, inl, inr, arith, subst, sym, ◌∙◌, Any,
}
use muser_console.Auth.Compare.{constant_time_eq, constant_time_eq_iff}
use muser_console.Http.{Http, HeaderMap}
use muser_console.State.Types.{
  AppState, Pairing, pairing_ttl, max_pairings_per_session, session_cookie,
}
use muser_console.State.Headers.{cookie_value}
use muser_console.State.Sessions.{valid_session, credentials}
use muser_console.State.Pairings.Laws.{consume_pairing_iff}
use muser_console.State.Pairings.{
  live_pairings, issued_by, evict, redeems, revokes, add_pairing, mint_with, mint_pairing,
  consume_pairing, revoke_pairing,
}
use muser_console.State.Pairings.Evict.{
  count-remove_first-le, evict_below, count-evict-le, of_others, of_others-evict,
}

-- no session has more pairings than the cap
abbrev pub IsCapped : List Pairing → Type 0
IsCapped m = (issuer : List ℕ) → count_if (issued_by issuer) m ≤ max_pairings_per_session

IsCapped-retain : (p : Pairing → Bool) (m : List Pairing) → IsCapped m → IsCapped (retain p m)
IsCapped-retain p m c issuer = omega (arith, count_if-retain (issued_by issuer) p m, c issuer)

IsCapped-remove_first :
    (p : Pairing → Bool) (m : List Pairing) → IsCapped m → IsCapped (remove_first p m)
IsCapped-remove_first p m c issuer =
    omega (arith, count-remove_first-le (issued_by issuer) p m, c issuer)

add_pairing-IsCapped :
    (http : Http) (m : List Pairing) (issuer : List ℕ) (origin : Text) (token id : List ℕ) (now : ℕ)
    → IsCapped m
    → IsCapped (add_pairing http m issuer origin token id now)
add_pairing-IsCapped http m issuer origin token id now c i =
    let live = live_pairings now m in
    let kept = evict (suc (length live)) issuer live in
    let split = count_if-append (issued_by i) kept (entry ∷ []) in
    elim (Bool-cases (constant_time_eq issuer i)) [
      | inl same ↦
          let e : issuer ≡ i = (constant_time_eq_iff issuer i).0 same in
          let below =
            subst (λ (x : List ℕ). count_if (issued_by x) kept < 5) e
              (evict_below (suc (length live)) issuer live (omega arith)) in
          omega (arith, split, one-le same, below)
      | inr other ↦ omega (
        arith,
        split,
        zero-le other,
        count-evict-le (suc (length live)) (issued_by i) issuer live,
        count_if-retain (issued_by i) (λ (e : Pairing). ltb now e.expiry) m,
        c i,
      )
    ]
  where
    entry : Pairing
    entry = record {
      id = http.encode id;
      token_hash = http.sha256 token;
      issuer_hash = issuer;
      expiry = now + pairing_ttl;
      origin = origin;
    }

    one-le : constant_time_eq issuer i ≡ true → count_if (issued_by i) (entry ∷ []) ≡ 1
    one-le h = rw h

    zero-le : constant_time_eq issuer i ≡ false → count_if (issued_by i) (entry ∷ []) ≡ 0
    zero-le h = rw h

-- A call of the pairing store, each with what the entropy source yields and the instants it reads.
pub data Call : Type 0 where
  mints : HeaderMap → Text → Option (List ℕ) → Option (List ℕ) → ℕ → ℕ → Call
  consumes : List ℕ → Text → ℕ → Call
  revokes_id : HeaderMap → Text → ℕ → ℕ → Call

abbrev pub step : Http → AppState → Call → AppState
step http s (mints headers origin token id checked now) =
    (mint_pairing http s headers origin token id checked now).0
step http s (consumes token origin now) = (consume_pairing http s token origin now).0
step http s (revokes_id headers id checked now) = (revoke_pairing http s headers id checked now).0

pub run : Http → AppState → List Call → AppState
run http s [] = s
run http s (c ∷ cs) = run http (step http s c) cs

same_pairings :
    (http : Http) (s : AppState) (headers : HeaderMap) (now : ℕ)
    → (valid_session http s headers now).0.pairings ≡ s.pairings
unfolding valid_session
same_pairings http s headers now = elim (Option-cases (credentials http s headers)) [
  | inl e ↦ rw (e, valid_session)
  | inr (_, e) ↦ rw (e, valid_session)
]

consume-IsCapped :
    (http : Http) (s : AppState) (token : List ℕ) (origin : Text) (now : ℕ)
    → IsCapped s.pairings
    → IsCapped (consume_pairing http s token origin now).0.pairings
unfolding consume_pairing
consume-IsCapped http s token origin now c =
    let live = live_pairings now s.pairings in
    let capped = IsCapped-retain (λ e. ltb now e.expiry) s.pairings c in
    elim (Bool-cases (any (redeems (http.sha256 token) origin) live)) [
      | inl hit ↦ rw hit (IsCapped-remove_first (redeems (http.sha256 token) origin) live capped)
      | inr miss ↦ rw miss capped
    ]

revoke-IsCapped :
    (http : Http) (s : AppState) (headers : HeaderMap) (id : Text) (checked now : ℕ)
    → IsCapped s.pairings
    → IsCapped (revoke_pairing http s headers id checked now).0.pairings
unfolding revoke_pairing
revoke-IsCapped http s headers id checked now c =
    let r = valid_session http s headers checked in
    let c' : IsCapped r.0.pairings =
      subst IsCapped (sym (same_pairings http s headers checked)) c in
    let live = live_pairings now r.0.pairings in
    let capped = IsCapped-retain (λ e. ltb now e.expiry) r.0.pairings c' in
    elim (Option-cases (cookie_value http headers session_cookie)) [
      | inl e ↦ rw (e, revoke_pairing) c
      | inr (session_token, e) ↦ elim (Option-cases r.1) [
        | inl f ↦ rw (e, revoke_pairing, f) c'
        | inr (csrf, f) ↦
            let mine = revokes id (http.sha256 session_token) in
            elim (Bool-cases (any mine live)) [
              | inl hit ↦ rw (e, revoke_pairing, f, hit) (IsCapped-remove_first mine live capped)
              | inr miss ↦ rw (e, revoke_pairing, f, miss) capped
            ]
      ]
    ]

-- where a mint leaves the pairings as they are, and where it adds one
mint_cases :
    (http : Http) (P : List Pairing → Type 0) (s : AppState) (headers : HeaderMap) (origin : Text)
    (token id : Option (List ℕ)) (checked now : ℕ)
    → P s.pairings
    → ((issuer t i : List ℕ) → P (add_pairing http s.pairings issuer origin t i now))
    → P (mint_pairing http s headers origin token id checked now).0.pairings
unfolding mint_pairing
mint_cases http P s headers origin token id checked now old new =
    let r = valid_session http s headers checked in
    let same : r.0.pairings ≡ s.pairings = same_pairings http s headers checked in
    let old' : P r.0.pairings = subst P (sym same) old in
    elim (Option-cases (cookie_value http headers session_cookie)) [
      | inl e ↦ rw (e, mint_pairing) old
      | inr (session_token, e) ↦ elim (Option-cases r.1) [
        | inl f ↦ rw (e, mint_pairing, f) old'
        | inr (csrf, f) ↦ rw (e, mint_pairing, f) (drawn token id session_token old')
      ]
    ]
  where
    drawn :
        (token id : Option (List ℕ)) (session_token : Text)
        → P (valid_session http s headers checked).0.pairings
        → P
            (mint_with http
              (valid_session http s headers checked).0
              session_token
              origin
              token
              id
              now).0.pairings
    drawn none id session_token old' = old'
    drawn (some t) none session_token old' = old'
    drawn (some t) (some i) session_token old' =
        subst (λ x. P (add_pairing http x (http.sha256 session_token) origin t i now))
          (sym (same_pairings http s headers checked)) (new (http.sha256 session_token) t i)

-- no call takes a session over the cap
step-IsCapped :
    (http : Http) (s : AppState) (c : Call)
    → IsCapped s.pairings
    → IsCapped (step http s c).pairings
step-IsCapped http s (mints headers origin token id checked now) c =
    mint_cases http IsCapped s headers origin token id checked now c
      λ issuer t i. add_pairing-IsCapped http s.pairings issuer origin t i now c
step-IsCapped http s (consumes token origin now) c = consume-IsCapped http s token origin now c
step-IsCapped http s (revokes_id headers id checked now) c =
    revoke-IsCapped http s headers id checked now c

-- If no session has more than five pending pairings, none has after any sequence of mints, redemptions and
-- revocations, whatever they answer.
pub run-IsCapped :
    (http : Http) (s : AppState) (calls : List Call)
    → IsCapped s.pairings
    → IsCapped (run http s calls).pairings
unfolding run
run-IsCapped http s [] c = c
run-IsCapped http s (x ∷ calls) c =
    run-IsCapped http (step http s x) calls (step-IsCapped http s x c)

Any-concat : (P : Pairing → Type 0) (m : List Pairing) (e : Pairing) → P e → Any P (m ++ e ∷ [])
Any-concat P [] e h = inl h
Any-concat P (x ∷ m) e h = inr (Any-concat P m e h)

retain-concat :
    (p : Pairing → Bool) (m : List Pairing) (e : Pairing)
    → p e ≡ false
    → retain p (m ++ e ∷ []) ≡ retain p m
retain-concat p [] e h = rw h
retain-concat p (x ∷ m) e h = ground (arith, retain-concat p m e h)

-- A pairing that is added can be redeemed for its origin until two minutes have passed, and the live
-- pairings of every other session stay as they are, in order: an eviction takes only the issuer's own.
pub add_pairing_spares :
    (http : Http) (s : AppState) (issuer : List ℕ) (origin : Text) (token id : List ℕ)
    (now later : ℕ)
    → later < now + pairing_ttl
    → let pairings = add_pairing http s.pairings issuer origin token id now in
      ((consume_pairing http (record s { pairings = pairings }) token origin later).1 ≡ true)
      × (of_others issuer pairings ≡ of_others issuer (live_pairings now s.pairings))
add_pairing_spares http s issuer origin token id now later h =
    let live = live_pairings now s.pairings in
    let kept = evict (suc (length live)) issuer live in
    let mine : not (issued_by issuer entry) ≡ false =
      rw ((constant_time_eq_iff issuer issuer).1 refl) in
    (
      (consume_pairing_iff http _ token origin later).1 (Any-concat _ kept entry (refl, refl, h)),
      retain-concat (λ e. not (issued_by issuer e)) kept entry mine
          ∙ of_others-evict (suc (length live)) issuer live,
    )
  where
    entry : Pairing
    entry = record {
      id = http.encode id;
      token_hash = http.sha256 token;
      issuer_hash = issuer;
      expiry = now + pairing_ttl;
      origin = origin;
    }
