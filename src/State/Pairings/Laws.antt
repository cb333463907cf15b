-- ===== src/State/Pairings/Laws.antt =====
-- When a pairing of crates/console-server/src/state.rs is redeemed, and that it is redeemed once.
use muser_console.Base.{
  ℕ, suc, ◌≤◌, ◌<◌, true, false, ltb, ltb→lt, lt→ltb, and_split, and_join, Text, List, [], ◌∷◌, any,
  remove_first, count_if, count_if-retain, Any, Bool-cases, ◌≡◌, ◌↔◌, refl, inl, inr, arith,
}
use muser_console.Auth.Compare.{constant_time_eq, constant_time_eq_iff}
use muser_console.Http.{Http}
use muser_console.State.Types.{AppState, Pairing}
use muser_console.State.Pairings.{live_pairings, redeems, consume_pairing}

-- The list holds a pairing with this token hash for this origin that has not expired.
abbrev pub Pending : List ℕ → Text → ℕ → List Pairing → Type 0
Pending hash origin now =
    Any (λ (e : Pairing). (e.token_hash ≡ hash) × (e.origin ≡ origin) × (now < e.expiry))

redeems_iff :
    (hash : List ℕ) (origin : Text) (e : Pairing)
    → (redeems hash origin e ≡ true) ↔ ((e.token_hash ≡ hash) × (e.origin ≡ origin))
redeems_iff hash origin e = (
  λ h.
      let (a, b) = and_split (constant_time_eq e.token_hash hash) _ h in
      ((constant_time_eq_iff e.token_hash hash).0 a, (constant_time_eq_iff e.origin origin).0 b),
  λ (a, b).
      and_join (constant_time_eq e.token_hash hash) _ ((constant_time_eq_iff e.token_hash hash).1 a)
        ((constant_time_eq_iff e.origin origin).1 b),
)

any-Pending :
    (hash : List ℕ) (origin : Text) (now : ℕ) (m : List Pairing)
    → any (redeems hash origin) (live_pairings now m) ≡ true
    → Pending hash origin now m
any-Pending hash origin now [] h = cc
any-Pending hash origin now (x ∷ m) h = elim (Bool-cases (ltb now x.expiry)) [
  | inr dead ↦ inr (any-Pending hash origin now m (rw dead at h))
  | inl live ↦ elim (Bool-cases (redeems hash origin x)) [
    | inl hit ↦
        let (a, b) = (redeems_iff hash origin x).0 hit in inl (a, b, ltb→lt now x.expiry live)
    | inr miss ↦ inr (any-Pending hash origin now m (rw (live, miss) at h))
  ]
]

Pending-any :
    (hash : List ℕ) (origin : Text) (now : ℕ) (m : List Pairing)
    → Pending hash origin now m
    → any (redeems hash origin) (live_pairings now m) ≡ true
Pending-any hash origin now [] p = absurd p
Pending-any hash origin now (x ∷ m) (inl (a, b, l)) =
    rw (lt→ltb now x.expiry l, (redeems_iff hash origin x).1 (a, b)) refl
Pending-any hash origin now (x ∷ m) (inr p) =
    let rest = Pending-any hash origin now m p in ground (arith, rest)

-- A pairing is redeemed if and only if one with the hash of the presented token is pending for the origin
-- it was minted for.
pub consume_pairing_iff :
    (http : Http) (s : AppState) (raw_token : List ℕ) (origin : Text) (now : ℕ)
    → ((consume_pairing http s raw_token origin now).1 ≡ true)
      ↔ Pending (http.sha256 raw_token) origin now s.pairings
unfolding consume_pairing
consume_pairing_iff http s raw_token origin now =
    let hash = http.sha256 raw_token in
    (
      λ h. any-Pending hash origin now s.pairings (ground (arith, h)),
      λ p. ground (arith, Pending-any hash origin now s.pairings p),
    )

-- how many pairings have the hash
abbrev pub with_hash : List ℕ → List Pairing → ℕ
with_hash hash = count_if (λ e. constant_time_eq e.token_hash hash)

spent_hash :
    (hash : List ℕ) (origin : Text) (m : List Pairing)
    → any (redeems hash origin) m ≡ true
    → suc (with_hash hash (remove_first (redeems hash origin) m)) ≤ with_hash hash m
spent_hash hash origin [] h = cc
spent_hash hash origin (x ∷ m) h = elim (Bool-cases (redeems hash origin x)) [
  | inl hit ↦
      let a = (and_split (constant_time_eq x.token_hash hash) _ hit).0 in rw hit (ground (arith, a))
  | inr miss ↦ let rest = spent_hash hash origin m (rw miss at h) in ground (arith, miss, rest)
]

none_left :
    (hash : List ℕ) (origin : Text) (m : List Pairing)
    → with_hash hash m ≡ 0
    → any (redeems hash origin) m ≡ false
none_left hash origin [] h = refl
none_left hash origin (x ∷ m) h = ground (arith, none_left hash origin m)

-- If no two pairings share a token's hash, its token is redeemed at most once: after a redemption, for
-- whatever origin, every later attempt with the same token fails, for any origin and at any time.
pub consume_pairing_once :
    (http : Http) (s : AppState) (raw_token : List ℕ) (origin other : Text) (now later : ℕ)
    → with_hash (http.sha256 raw_token) s.pairings ≤ 1
    → (consume_pairing http s raw_token origin now).1 ≡ true
    → let s' = (consume_pairing http s raw_token origin now).0 in
      (consume_pairing http s' raw_token other later).1 ≡ false
unfolding consume_pairing
consume_pairing_once http s raw_token origin other now later unique h =
    let hash = http.sha256 raw_token in
    let live = live_pairings now s.pairings in
    let there : any (redeems hash origin) live ≡ true = ground (arith, h) in
    let left = remove_first (redeems hash origin) live in
    let still = live_pairings later left in
    let gone : with_hash hash still ≡ 0 = omega (
      arith,
      spent_hash hash origin live there,
      count_if-retain (λ (e : Pairing). constant_time_eq e.token_hash hash) (λ e. ltb now e.expiry)
          s.pairings,
      count_if-retain (λ (e : Pairing). constant_time_eq e.token_hash hash)
          (λ e. ltb later e.expiry) left,
    ) in
    rw there (rw (none_left hash other still gone))
