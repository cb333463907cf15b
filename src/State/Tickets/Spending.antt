-- ===== src/State/Tickets/Spending.antt =====
-- Histories of calls of `mint_ticket` and `consume_ticket` of crates/console-server/src/state.rs, in the
-- order in which the mutex of the ticket map admits them.
use muser_console.Base.{
  ℕ, ◌+◌, ◌≤◌, Bool, true, false, ltb, ◌&&◌, Text, text_eq, text_eq_iff, text_eq→eq, List, [], ◌∷◌,
  Option, none, some, find, Bool-cases, Option-cases, ◌≡◌, ◌∙◌, sym, subst, inl, inr, arith,
  count_if, count_if-retain, and_split,
}
use muser_console.Auth.Compare.{constant_time_eq, constant_time_eq_iff}
use muser_console.Http.{Http}
use muser_console.State.Types.{AppState, Ticket}
use muser_console.State.Maps.{has_key, map_remove, count_key-map_remove, count_key-map_remove_ne}
use muser_console.State.Tickets.{live_tickets, mint_ticket, opens, consume_ticket}

-- A call of the ticket store; a mint carries what the entropy source yields.
pub data Call : Type 0 where
  mints : Text → Option (List ℕ) → Call
  consumes : Text → Text → Call

abbrev pub step : Http → AppState → ℕ × Call → AppState
step http s (now, mints name entropy) = (mint_ticket http s name entropy now).0
step http s (now, consumes candidate name) = (consume_ticket s candidate name now).0

abbrev one_if : Bool → ℕ
one_if true = 1
one_if false = 0

abbrev is_ticket : Text → Option Text → Bool
is_ticket t none = false
is_ticket t (some u) = text_eq u t

-- 1 if this call accepts the ticket `t`, and 1 if this call hands it out
abbrev pub spends : Text → AppState → ℕ × Call → ℕ
spends t s (now, mints name entropy) = 0
spends t s (now, consumes candidate name) =
    one_if (text_eq candidate t && (consume_ticket s candidate name now).1)

abbrev pub issues : Http → Text → AppState → ℕ × Call → ℕ
issues http t s (now, mints name entropy) =
    one_if (is_ticket t (mint_ticket http s name entropy now).1)
issues http t s (now, consumes candidate name) = 0

pub spent : Http → Text → AppState → List (ℕ × Call) → ℕ
spent http t s [] = 0
spent http t s (c ∷ cs) = spends t s c + spent http t (step http s c) cs

pub issued : Http → Text → AppState → List (ℕ × Call) → ℕ
issued http t s [] = 0
issued http t s (c ∷ cs) = issues http t s c + issued http t (step http s c) cs

abbrev pub held : Text → List (Text × Ticket) → ℕ
held t m = count_if (has_key t) m

found-held :
    (c name : Text) (m : List (Text × Ticket)) (e : Text × Ticket)
    → find (opens c name) m ≡ some e
    → (1 ≤ held c m) × (e.0 ≡ c)
found-held c name [] e h = cc
found-held c name ((t, v) ∷ m) e h = elim (Bool-cases (opens c name (t, v))) [
  | inl hit ↦
      let same : t ≡ c = (constant_time_eq_iff t c).0 (and_split (constant_time_eq t c) _ hit).0 in
      let first : e ≡ (t, v) = cc (rw hit at h) in
      (ground (arith, (text_eq_iff t c).1 same), rw first same)
  | inr miss ↦ let (a, b) = found-held c name m e (rw miss at h) in (ground (arith, a), b)
]

held-mint :
    (http : Http) (t : Text) (s : AppState) (name : Text) (entropy : Option (List ℕ)) (now : ℕ)
    → held t (mint_ticket http s name entropy now).0.tickets
      ≤ held t s.tickets + one_if (is_ticket t (mint_ticket http s name entropy now).1)
unfolding mint_ticket
held-mint http t s name none now = omega arith
held-mint http t s name (some bytes) now = elim (Bool-cases (text_eq (http.encode bytes) t)) [
  | inl same ↦
      let e : http.encode bytes ≡ t = text_eq→eq (http.encode bytes) t same in
      ground (
        arith,
        subst (λ x. held t (map_remove x (live_tickets now s.tickets)) ≡ 0) (sym e)
            (count_key-map_remove t (live_tickets now s.tickets)),
      )
  | inr other ↦ ground (
    arith,
    count_key-map_remove_ne (http.encode bytes) t (live_tickets now s.tickets) other,
    count_if-retain (has_key t) (λ (e : Text × Ticket). ltb now e.1.expiry) s.tickets,
  )
]

held-map_remove : (t k : Text) (m : List (Text × Ticket)) → held t (map_remove k m) ≤ held t m
held-map_remove t k [] = omega arith
held-map_remove t k ((j, v) ∷ m) = ground (arith, held-map_remove t k m)

held-consume :
    (t : Text) (s : AppState) (c name : Text) (now : ℕ)
    → held t (consume_ticket s c name now).0.tickets
        + one_if (text_eq c t && (consume_ticket s c name now).1)
      ≤ held t s.tickets
unfolding consume_ticket
held-consume t s c name now =
    let m = live_tickets now s.tickets in
    let fewer = count_if-retain (has_key t) (λ (e : Text × Ticket). ltb now e.1.expiry) s.tickets in
    elim (Option-cases (find (opens c name) m)) [
      | inl missing ↦ rw (missing, consume_ticket) (ground (arith, fewer))
      | inr (e, hit) ↦
          rw (hit, consume_ticket)
            (elim (Bool-cases (text_eq c t)) [
              | inr other ↦ ground (arith, fewer, held-map_remove t e.0 m)
              | inl same ↦
                  let (a, b) = found-held c name m e hit in
                  let k : e.0 ≡ t = b ∙ text_eq→eq c t same in
                  ground (
                    arith,
                    fewer,
                    subst (λ x. 1 ≤ held x m) (text_eq→eq c t same) a,
                    subst (λ x. held t (map_remove x m) ≡ 0) (sym k) (count_key-map_remove t m),
                  )
            ])
    ]

held-step :
    (http : Http) (t : Text) (s : AppState) (c : ℕ × Call)
    → held t (step http s c).tickets + spends t s c ≤ held t s.tickets + issues http t s c
held-step http t s (now, mints name entropy) = omega (arith, held-mint http t s name entropy now)
held-step http t s (now, consumes c name) = omega (arith, held-consume t s c name now)

-- In every history of calls, at any times and for any instances, a ticket is accepted at most as often as
-- it was minted, plus the entries that the store held under its text before: one mint buys one stream.
pub spent-le-issued :
    (http : Http) (t : Text) (s : AppState) (calls : List (ℕ × Call))
    → spent http t s calls ≤ issued http t s calls + held t s.tickets
unfolding spent issued
spent-le-issued http t s [] = omega arith
spent-le-issued http t s (c ∷ cs) =
    omega (arith, held-step http t s c, spent-le-issued http t (step http s c) cs)
