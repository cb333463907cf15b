-- ===== src/Reply/Laws.antt =====
-- What the rejections of crates/console-server/src/auth.rs leave of the state: only sessions that have
-- expired are dropped.
use muser_console.Base.{
  ℕ, Bool, true, false, Option, none, some, Bool-cases, Option-cases, ◌≡◌, ◌⊎◌, refl, inl, inr,
  arith, ap, ◌∙◌,
}
use muser_console.Http.{Http, HeaderMap, Request, is_post}
use muser_console.State.Types.{AppState}
use muser_console.State.Types
use muser_console.State.Sessions.{
  Authorisation, ok, err, credentials, valid_session, loopback_bearer, by_session, authorized_read,
  authorized_mutation,
}
use muser_console.Reply.{
  Response, unread, unchanged, auth_required, csrf_required, read_rejection, mutation_rejection,
  rejection,
}

-- the same state but for the sessions
abbrev pub SameButSessions : AppState → AppState → Type 0
SameButSessions s s' = s' ≡ record s { sessions = s'.sessions }

module _ (http : Http) where
  pub valid_session-SameButSessions :
      (s : AppState) (headers : HeaderMap) (now : ℕ)
      → SameButSessions s (valid_session http s headers now).0
  unfolding valid_session
  valid_session-SameButSessions s headers now = elim (Option-cases (credentials http s headers)) [
    | inl e ↦ rw (valid_session, e) refl
    | inr (_, e) ↦ rw (valid_session, e) refl
  ]

  by_session-state :
      (headers : HeaderMap) (r : AppState × Option _) → (by_session http headers r).0 ≡ r.0
  by_session-state headers (s, none) = refl
  by_session-state headers (s, some csrf) = refl

  authorized_mutation-SameButSessions :
      (s : AppState) (headers : HeaderMap) (now : ℕ)
      → SameButSessions s (authorized_mutation http s headers now).0
  unfolding authorized_mutation
  authorized_mutation-SameButSessions s headers now =
      elim (Bool-cases (loopback_bearer http s headers)) [
        | inl e ↦ rw (authorized_mutation, e) refl
        | inr e ↦
            rw (authorized_mutation, e, by_session-state headers (valid_session http s headers now))
              (valid_session-SameButSessions s headers now)
      ]

  authorized_read-SameButSessions :
      (s : AppState) (headers : HeaderMap) (now : ℕ)
      → SameButSessions s (authorized_read http s headers now).0
  unfolding authorized_read
  authorized_read-SameButSessions s headers now =
      elim (Bool-cases (loopback_bearer http s headers)) [
        | inl e ↦ rw (authorized_read, e) refl
        | inr e ↦ rw (authorized_read, e) (valid_session-SameButSessions s headers now)
      ]

  pub mutation_rejection-SameButSessions :
      (s : AppState) (headers : HeaderMap) (now : ℕ)
      → SameButSessions s (mutation_rejection http s headers now).0
  unfolding mutation_rejection
  mutation_rejection-SameButSessions = authorized_mutation-SameButSessions

  pub rejection-SameButSessions :
      (s : AppState) (request : Request) (now : ℕ)
      → SameButSessions s (rejection http s request now).0
  unfolding rejection read_rejection
  rejection-SameButSessions s request now = elim (Bool-cases (is_post request)) [
    | inl e ↦ rw (rejection, e) (mutation_rejection-SameButSessions s request.headers now)
    | inr e ↦ rw (rejection, e) (authorized_read-SameButSessions s request.headers now)
  ]

unchanged-none : (a : Authorisation) → unchanged a ≡ none → a ≡ ok
unchanged-none ok h = refl
unchanged-none (err Types.unauthorized) h = cc
unchanged-none (err Types.csrf) h = cc

unread-none : (b : Bool) → unread b ≡ none → b ≡ true
unread-none true h = refl
unread-none false h = cc

module _ (http : Http) where
  -- Who is not rejected is authorised: to mutate by a POST, to read by any other method.
  pub rejection-none :
      (s : AppState) (request : Request) (now : ℕ)
      → (rejection http s request now).1 ≡ none
      → ((is_post request ≡ true) × ((authorized_mutation http s request.headers now).1 ≡ ok))
        ⊎ ((is_post request ≡ false) × ((authorized_read http s request.headers now).1 ≡ true))
  unfolding rejection read_rejection mutation_rejection
  rejection-none s request now h = elim (Bool-cases (is_post request)) [
    | inl e ↦ inl (e, unchanged-none _ (rw (rejection, e) at h))
    | inr e ↦ inr (e, unread-none _ (rw (rejection, e) at h))
  ]

  unchanged-status :
      (a : Authorisation) (refusal : Response)
      → unchanged a ≡ some refusal
      → ¬ (refusal.status ≡ 200)
  unchanged-status ok refusal h k = cc
  unchanged-status (err Types.unauthorized) refusal h k =
      let x : auth_required ≡ refusal = cc h in absurd (omega (arith, (rw (← x) at k)))
  unchanged-status (err Types.csrf) refusal h k =
      let x : csrf_required ≡ refusal = cc h in absurd (omega (arith, (rw (← x) at k)))

  -- No rejection of a mutation looks like a success.
  pub mutation_rejection-status :
      (s : AppState) (headers : HeaderMap) (now : ℕ) (refusal : Response)
      → (mutation_rejection http s headers now).1 ≡ some refusal
      → ¬ (refusal.status ≡ 200)
  unfolding mutation_rejection
  mutation_rejection-status s headers now refusal h =
      unchanged-status (authorized_mutation http s headers now).1 refusal h

pub SameButSessions-trans :
    (s t u : AppState) → SameButSessions s t → SameButSessions t u → SameButSessions s u
SameButSessions-trans s t u p q = q ∙ ap (λ (x : AppState). record x { sessions = u.sessions }) p
