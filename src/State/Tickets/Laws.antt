-- ===== src/State/Tickets/Laws.antt =====
-- When a ticket of crates/console-server/src/state.rs is accepted, and that it is accepted once.
use muser_console.Base.{
  find_passes, subst, ℕ, ◌+◌, ◌≤◌, ◌<◌, true, false, ltb, ltb→lt, lt→ltb, and_split, Text, text_eq,
  text_eq_iff, text_eq_refl, text_eq→eq, List, [], ◌∷◌, none, some, find, Any, Bool-cases,
  Option-cases, ◌≡◌, ◌≢◌, ◌↔◌, refl, inl, inr, arith,
}
use muser_console.Auth.Compare.{constant_time_eq, constant_time_eq_iff}
use muser_console.Http.{Http}
use muser_console.State.Types.{AppState, Ticket, ticket_ttl}
use muser_console.State.Maps.{map_remove}
use muser_console.State.Tickets.{live_tickets, mint_ticket, opens, consume_ticket}

-- The list holds a ticket with this text, for this instance, that has not expired.
abbrev pub Redeemable : Text → Text → ℕ → List (Text × Ticket) → Type 0
Redeemable candidate instance_name now = Any (λ (e : Text × Ticket).
    (e.0 ≡ candidate) × (e.1.instance_name ≡ instance_name) × (now < e.1.expiry))

opens_iff :
    (candidate name : Text) (e : Text × Ticket)
    → (opens candidate name e ≡ true) ↔ ((e.0 ≡ candidate) × (e.1.instance_name ≡ name))
opens_iff candidate name (t, entry) = (
  λ h.
      let (a, b) = and_split (constant_time_eq t candidate) _ h in
      ((constant_time_eq_iff t candidate).0 a, text_eq→eq entry.instance_name name b),
  λ (a, b).
      ground
        (arith, (constant_time_eq_iff t candidate).1 a, (text_eq_iff entry.instance_name name).1 b),
)

found-Redeemable :
    (c name : Text) (now : ℕ) (m : List (Text × Ticket)) (e : Text × Ticket)
    → find (opens c name) (live_tickets now m) ≡ some e
    → Redeemable c name now m
found-Redeemable c name now [] e h = cc
found-Redeemable c name now (x ∷ m) e h = elim (Bool-cases (ltb now x.1.expiry)) [
  | inr dead ↦ inr (found-Redeemable c name now m e (rw dead at h))
  | inl live ↦ elim (Bool-cases (opens c name x)) [
    | inl hit ↦ let (a, b) = (opens_iff c name x).0 hit in inl (a, b, ltb→lt now x.1.expiry live)
    | inr miss ↦ inr (found-Redeemable c name now m e (rw (live, miss) at h))
  ]
]

Redeemable-found :
    (c name : Text) (now : ℕ) (m : List (Text × Ticket))
    → Redeemable c name now m
    → find (opens c name) (live_tickets now m) ≢ none
Redeemable-found c name now [] r h = r
Redeemable-found c name now (x ∷ m) (inl (a, b, l)) h =
    cc (rw (lt→ltb now x.1.expiry l, (opens_iff c name x).1 (a, b)) at h)
Redeemable-found c name now (x ∷ m) (inr r) h = elim (Bool-cases (ltb now x.1.expiry)) [
  | inr dead ↦ Redeemable-found c name now m r (rw dead at h)
  | inl live ↦ elim (Bool-cases (opens c name x)) [
    | inl hit ↦ cc (rw (live, hit) at h)
    | inr miss ↦ Redeemable-found c name now m r (rw (live, miss) at h)
  ]
]

-- A ticket is accepted for an instance if and only if the store holds it, minted for that instance and
-- not expired: a ticket of another instance, an expired one and an unknown one get the same refusal.
pub consume_ticket_iff :
    (s : AppState) (candidate name : Text) (now : ℕ)
    → ((consume_ticket s candidate name now).1 ≡ true) ↔ Redeemable candidate name now s.tickets
unfolding consume_ticket
consume_ticket_iff s c name now =
    elim (Option-cases (find (opens c name) (live_tickets now s.tickets))) [
      | inl missing ↦ (
        λ h. cc (rw (missing, consume_ticket) at h),
        λ r. absurd (Redeemable-found c name now s.tickets r missing),
      )
      | inr (e, hit) ↦
          (λ h. found-Redeemable c name now s.tickets e hit, λ r. rw (hit, consume_ticket))
    ]

-- a refusal drops the expired tickets and nothing else
refused_tickets :
    (s : AppState) (c name : Text) (now : ℕ)
    → (consume_ticket s c name now).1 ≡ false
    → (consume_ticket s c name now).0.tickets ≡ live_tickets now s.tickets
unfolding consume_ticket
refused_tickets s c name now h = ground arith

removed-Redeemable :
    (c name : Text) (now : ℕ) (m : List (Text × Ticket)) → ¬ Redeemable c name now (map_remove c m)
removed-Redeemable c name now [] r = r
removed-Redeemable c name now ((t, v) ∷ m) r = elim (Bool-cases (text_eq t c)) [
  | inl same ↦ removed-Redeemable c name now m (rw same at r)
  | inr other ↦
      elim (let r' : Redeemable c name now ((t, v) ∷ map_remove c m) = rw other at r in r') [
        | inl (e, _, _) ↦ cc (rw (e, text_eq_refl c) at other)
        | inr rest ↦ removed-Redeemable c name now m rest
      ]
]

-- An accepted ticket is gone: it is redeemable for no instance, at no time.
pub spent-Redeemable :
    (s : AppState) (c name other : Text) (now later : ℕ)
    → (consume_ticket s c name now).1 ≡ true
    → ¬ Redeemable c other later (consume_ticket s c name now).0.tickets
unfolding consume_ticket
spent-Redeemable s c name other now later h r =
    let m = live_tickets now s.tickets in
    elim (Option-cases (find (opens c name) m)) [
      | inl missing ↦ cc (rw (missing, consume_ticket) at h)
      | inr (e, hit) ↦
          let same : e.0 ≡ c = ((opens_iff c name e).0 (find_passes (opens c name) m e hit)).0 in
          removed-Redeemable c other later m (
            subst (λ k. Redeemable c other later (map_remove k m)) same
              (rw (consume_ticket, hit) at r))
    ]

-- A refusal is the same whatever was asked for: only the expired tickets go.
pub refused_ticket :
    (s : AppState) (c name : Text) (now : ℕ)
    → ¬ Redeemable c name now s.tickets
    → consume_ticket s c name now ≡ (record s { tickets = live_tickets now s.tickets }, false)
unfolding consume_ticket
refused_ticket s c name now none_there =
    elim (Option-cases (find (opens c name) (live_tickets now s.tickets))) [
      | inl missing ↦ rw (consume_ticket, missing) refl
      | inr (e, hit) ↦ absurd (none_there (found-Redeemable c name now s.tickets e hit))
    ]

-- A minted ticket is accepted if and only if it is presented for the instance it was minted for and less
-- than thirty seconds after its mint.
pub mint-consume_iff :
    (http : Http) (s : AppState) (name other : Text) (bytes : List ℕ) (minted now : ℕ)
    → ((consume_ticket
          (mint_ticket http s name (some bytes) minted).0
          (http.encode bytes)
          other
          now).1
        ≡ true)
      ↔ ((name ≡ other) × (now < minted + ticket_ttl))
unfolding mint_ticket
mint-consume_iff http s name other bytes minted now = (
  λ h. elim ((consume_ticket_iff _ (http.encode bytes) other now).0 h) [
    | inl (_, b, l) ↦ (b, l)
    | inr r ↦
        absurd (removed-Redeemable (http.encode bytes) other now (live_tickets minted s.tickets) r)
  ],
  λ (e, l). (consume_ticket_iff _ (http.encode bytes) other now).1 (inl (refl, e, l)),
)

-- A ticket that is presented for another instance than its own is refused, and is still accepted for its
-- own afterwards, as long as it has not expired.
pub wrong_instance_spares :
    (http : Http) (s : AppState) (name other : Text) (bytes : List ℕ) (minted tried now : ℕ)
    → name ≢ other
    → tried ≤ now
    → now < minted + ticket_ttl
    → let ticket = http.encode bytes in
      let s' = (mint_ticket http s name (some bytes) minted).0 in
      let (s'', accepted) = consume_ticket s' ticket other tried in
      (accepted ≡ false) × ((consume_ticket s'' ticket name now).1 ≡ true)
unfolding mint_ticket
wrong_instance_spares http s name other bytes minted tried now ne le lt =
    let ticket = http.encode bytes in
    let s' = (mint_ticket http s name (some bytes) minted).0 in
    let refused : (consume_ticket s' ticket other tried).1 ≡ false =
      elim (Bool-cases (consume_ticket s' ticket other tried).1) [
        | inl h ↦ absurd (ne ((mint-consume_iff http s name other bytes minted tried).0 h).0)
        | inr h ↦ h
      ] in
    (refused, (consume_ticket_iff _ ticket name now).1 (kept refused))
  where
    kept :
        (consume_ticket
            (mint_ticket http s name (some bytes) minted).0
            (http.encode bytes)
            other
            tried).1
          ≡ false
        → Redeemable
            (http.encode bytes)
            name
            now
            (consume_ticket
              (mint_ticket http s name (some bytes) minted).0
              (http.encode bytes)
              other
              tried).0.tickets
    kept refused =
        rw
          (
            refused_tickets _ (http.encode bytes) other tried refused,
            lt→ltb tried (minted + ticket_ttl) (omega arith),
          )
          (inl (refl, refl, lt))
