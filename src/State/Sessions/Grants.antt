-- ===== src/State/Sessions/Grants.antt =====
-- Which requests may mutate behind a new session of crates/console-server/src/state.rs.
use muser_console.Base.{
  ℕ, ◌+◌, ◌<◌, ◌≤◌, true, false, ltb, Text, text_eq, text_eq_iff, List, [], ◌∷◌, Option, none, some,
  find, Bool-cases, Option-cases, ◌≡◌, ◌≢◌, ◌↔◌, ◌⊎◌, refl, sym, ap, ◌∙◌, inl, inr, arith,
}
use muser_console.Http.{Http, HeaderMap}
use muser_console.State.Types.{AppState, Session, session_ttl}
use muser_console.State.Maps.{map_remove}
use muser_console.State.Sessions.{
  ok, live_sessions, mint_session, bears, credentials, valid_session, loopback_bearer, csrf_matches,
  by_session, authorized_mutation,
}
use muser_console.State.Sessions.Laws.{bears_iff, mint_session-authorized_mutation_iff}

module _ (http : Http) where
  other_bears :
      (token t o : Text) (e : Text × Session) → t ≢ token → e.0 ≡ token → bears http t o e ≡ false
  other_bears token t o e other same = elim (Bool-cases (bears http t o e)) [
    | inl hit ↦ absurd (other (sym ((bears_iff http t o e).0 hit).0 ∙ same))
    | inr miss ↦ miss
  ]

  -- The search for another token finds what it found without the new session, whatever the mint dropped.
  others_stay :
      (token t o : Text) (now later : ℕ) (m : List (Text × Session))
      → t ≢ token
      → now ≤ later
      → find (bears http t o) (live_sessions later (map_remove token (live_sessions now m)))
        ≡ find (bears http t o) (live_sessions later m)
  others_stay token t o now later [] other after = refl
  others_stay token t o now later ((k, v) ∷ m) other after =
      let rest = others_stay token t o now later m other after in
      elim (Bool-cases (ltb now v.expiry)) [
        | inr dead ↦
            let dead' : ltb later v.expiry ≡ false = ground (arith, dead, after) in
            rw (dead, dead') rest
        | inl live ↦ elim (Bool-cases (text_eq k token)) [
          | inl same ↦
              let miss = other_bears token t o (k, v) other ((text_eq_iff k token).0 same) in
              elim (Bool-cases (ltb later v.expiry)) [
                | inl x ↦ rw (live, same, x, miss) rest
                | inr x ↦ rw (live, same, x) rest
              ]
          | inr away ↦ elim (Bool-cases (ltb later v.expiry)) [
            | inr x ↦ rw (live, away, x) rest
            | inl x ↦ elim (Bool-cases (bears http t o (k, v))) [
              | inl hit ↦ rw (live, away, x, hit) refl
              | inr miss ↦ rw (live, away, x, miss) rest
            ]
          ]
        ]
      ]

  by_session-outcome :
      (headers : HeaderMap) (r r' : AppState × Option Text)
      → r.1 ≡ r'.1
      → (by_session http headers r).1 ≡ (by_session http headers r').1
  by_session-outcome headers (s, none) (s', none) e = refl
  by_session-outcome headers (s, none) (s', some c) e = cc
  by_session-outcome headers (s, some c) (s', none) e = cc
  by_session-outcome headers (s, some c) (s', some c') e = let same : c ≡ c' = cc e in rw same refl

  -- the requests that may mutate once this session has been minted in that state
  abbrev pub MayMutate : AppState → Text → List ℕ → List ℕ → ℕ → ℕ → HeaderMap → Type 0
  MayMutate s origin token csrf now later headers =
      (loopback_bearer http s headers ≡ true)
      ⊎ (((credentials http s headers ≡ some (http.encode token, origin))
            × (later < now + session_ttl)
            × (csrf_matches http headers (http.encode csrf) ≡ true))
          ⊎ ((t : Text) × (o : Text) × (credentials http s headers ≡ some (t, o))
              × (t ≢ http.encode token)
              × ((authorized_mutation http s headers later).1 ≡ ok)))

  other_session :
      (s : AppState) (origin t o : Text) (token csrf : List ℕ) (now later : ℕ) (headers : HeaderMap)
      → credentials http s headers ≡ some (t, o)
      → t ≢ http.encode token
      → now ≤ later
      → (valid_session http
          (mint_session http s origin (some token) (some csrf) now).0
          headers
          later).1
        ≡ (valid_session http s headers later).1
  unfolding valid_session mint_session
  other_session s origin t o token csrf now later headers given other after =
      let entry : Session = record {
        expiry = now + session_ttl;
        csrf = http.encode csrf;
        origin = origin;
      } in
      let miss = other_bears (http.encode token) t o (http.encode token, entry) other refl in
      let stay = others_stay (http.encode token) t o now later s.sessions other after in
      elim (Bool-cases (ltb later entry.expiry)) [
        | inl x ↦ rw (valid_session, given, x, miss, stay) refl
        | inr x ↦ rw (valid_session, given, x, stay) refl
      ]

  none_given :
      (headers : HeaderMap) (s : AppState) (now : ℕ)
      → credentials http s headers ≡ none
      → loopback_bearer http s headers ≡ false
      → (authorized_mutation http s headers now).1 ≢ ok
  unfolding authorized_mutation valid_session
  none_given headers s now none_there no_key h =
      cc (rw (authorized_mutation, no_key, valid_session, none_there) at h)

  mutation-by_session :
      (s : AppState) (headers : HeaderMap) (now : ℕ)
      → loopback_bearer http s headers ≡ false
      → (authorized_mutation http s headers now).1
        ≡ (by_session http headers (valid_session http s headers now)).1
  unfolding authorized_mutation
  mutation-by_session s headers now no_key = rw (authorized_mutation, no_key) refl

  -- After a mint exactly these requests may mutate: the new session's, and those that could already.
  pub mint_session-MayMutate :
      (s : AppState) (origin : Text) (token csrf : List ℕ) (now later : ℕ) (headers : HeaderMap)
      → now ≤ later
      → ((authorized_mutation http
            (mint_session http s origin (some token) (some csrf) now).0
            headers
            later).1
          ≡ ok)
        ↔ MayMutate s origin token csrf now later headers
  unfolding authorized_mutation mint_session
  mint_session-MayMutate s origin token csrf now later headers after =
      let s' = (mint_session http s origin (some token) (some csrf) now).0 in
      elim (Bool-cases (loopback_bearer http s headers)) [
        | inl key ↦ (λ h. inl key, λ h. rw key refl)
        | inr no_key ↦ elim (Option-cases (credentials http s headers)) [
          | inl missing ↦ (
            λ h. absurd (none_given headers s' later missing no_key h),
            λ h. elim h [
              | inl key ↦ absurd (cc (key, no_key))
              | inr (inl (given, _, _)) ↦ absurd (cc (given, missing))
              | inr (inr (t, o, given, _, _)) ↦ absurd (cc (given, missing))
            ],
          )
          | inr ((t, o), given) ↦ elim (Bool-cases (text_eq t (http.encode token))) [
            | inl e ↦
                let same = (text_eq_iff t (http.encode token)).0 e in
                let given' : credentials http s headers ≡ some (http.encode token, o) =
                  given ∙ ap (λ x. some (x, o)) same in
                let (there, back) =
                  mint_session-authorized_mutation_iff http s origin o token csrf now later headers
                    given' no_key in
                (
                  λ h.
                      let (at, young, matches) = there h in
                      inr (
                        inl (
                          given' ∙ ap (λ x. some (http.encode token, x)) (sym at),
                          young,
                          matches,
                        )),
                  λ h. elim h [
                    | inl key ↦ absurd (cc (key, no_key))
                    | inr (inl (its, young, matches)) ↦
                        let pair : some (http.encode token, origin) ≡ some (http.encode token, o) =
                          sym its ∙ given' in
                        back (cc pair, young, matches)
                    | inr (inr (t', o', its, other, _)) ↦
                        let pair : some (t', o') ≡ some (http.encode token, o) = sym its ∙ given' in
                        absurd (other (cc pair))
                  ],
                )
            | inr e ↦
                let other : t ≢ http.encode token =
                  λ same. cc (e, (text_eq_iff t (http.encode token)).1 same) in
                let equal : (authorized_mutation http s' headers later).1
                    ≡ (authorized_mutation http s headers later).1 =
                  mutation-by_session s' headers later no_key
                  ∙ by_session-outcome headers (valid_session http s' headers later)
                      (valid_session http s headers later)
                      (other_session s origin t o token csrf now later headers given other after)
                  ∙ sym (mutation-by_session s headers later no_key) in
                (
                  λ h. inr (inr (t, o, given, other, sym equal ∙ h)),
                  λ h. elim h [
                    | inl key ↦ absurd (cc (key, no_key))
                    | inr (inl (its, _, _)) ↦
                        let pair : some (http.encode token, origin) ≡ some (t, o) =
                          sym its ∙ given in
                        absurd (other (sym (cc pair)))
                    | inr (inr (_, _, _, _, could)) ↦ equal ∙ could
                  ],
                )
          ]
        ]
      ]
