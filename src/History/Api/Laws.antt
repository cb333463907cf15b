-- ===== src/History/Api/Laws.antt =====
-- What an accepted query of crates/console-server/src/history/api.rs asks of the store.
use muser_console.Base.{
  ℕ, ◌<◌, ◌≢◌, ◌∷◌, All, Any, ap, map, find, text_eq, ◌*◌, ◌/◌, ◌^◌, ◌≤◌, true, ltb, Bool-cases,
  Text, List, [], Option, none, some, Option-cases, unwrap_or, retain, split, ◌≡◌, refl, subst, inl,
  inr, arith,
}
use muser_console.Base.Signed.{ℤ, pos, negsuc, lt, sub, fits, checked, checked_sub}
use muser_console.Catalog.Series.{Series}
use muser_console.Catalog.Lookup.{all, lookup}
use muser_console.History.Api.{
  resolve_names, chosen, max_points_per_series, Outcome, ok, err, Raw, Params, empty_range,
  to_out_of_range, bounded, spanned, stepped, check_range, start_of_range, series_of, finish,
  read_pairs, not_empty, no_parameters, parse,
}

-- the name of a series in the catalog
abbrev pub IsKnown : Text → Type 0
IsKnown name = Any (λ (s : Series). s.name ≡ name) all

-- What the store is spared: a query for nothing or for what the catalog does not name, a range that is empty or
-- runs backwards, a step below one second or one whose milliseconds overflow, and too many whole steps.
pub record IsBounded (p : Params) : Type 0 where
  pub forward : lt p.from_ms p.to_ms ≡ true
  pub named : p.series ≢ []
  pub known : All IsKnown p.series
  pub step : 1 ≤ p.step_s
  pub in_range : p.step_s * 1000 < 2 ^ 63
  pub span : ℕ
  pub spans : sub p.to_ms p.from_ms ≡ pos span
  pub few : span / (p.step_s * 1000) ≤ max_points_per_series

-- names to answer for: there is one, and the catalog has them all
abbrev IsChosen : List Text → Type 0
IsChosen series = (series ≢ []) × All IsKnown series

lookup-IsKnown : (name : Text) (s : Series) → lookup name ≡ some s → IsKnown s.name
unfolding lookup
lookup-IsKnown name s h = found all h
  where
    found :
        (l : List Series)
        → find (λ (x : Series). text_eq x.name name) l ≡ some s
        → Any (λ (x : Series). x.name ≡ s.name) l
    found [] e = cc e
    found (x ∷ l) e = elim (Bool-cases (text_eq x.name name)) [
      | inl hit ↦
          let same : some x ≡ some s = rw hit at e in
          let at : x ≡ s = cc same in inl (ap (λ (y : Series). y.name) at)
      | inr miss ↦ inr (found l (rw miss at e))
    ]

resolve_names-IsKnown : (names : List Text) → All IsKnown (resolve_names names).0
unfolding resolve_names
resolve_names-IsKnown [] = tt
resolve_names-IsKnown (name ∷ names) = elim (Option-cases (lookup name)) [
  | inl e ↦ rw (resolve_names, e) (resolve_names-IsKnown names)
  | inr (s, e) ↦ rw (resolve_names, e) (lookup-IsKnown name s e, resolve_names-IsKnown names)
]

map-IsKnown :
    (l : List Series)
    → All (λ name. Any (λ (s : Series). s.name ≡ name) l) (map (λ (s : Series). s.name) l)
map-IsKnown [] = tt
map-IsKnown (s ∷ l) = (inl refl, behind (map (λ (x : Series). x.name) l) (map-IsKnown l))
  where
    behind :
        (names : List Text)
        → All (λ name. Any (λ (x : Series). x.name ≡ name) l) names
        → All (λ name. Any (λ (x : Series). x.name ≡ name) (s ∷ l)) names
    behind [] h = tt
    behind (n ∷ names) (a, h) = (inr a, behind names h)

chosen-IsChosen :
    (r : List Text × List Text) (series : List Text)
    → All IsKnown r.0
    → chosen r ≡ ok series
    → IsChosen series
chosen-IsChosen (resolved, name ∷ unknown) series a h = cc h
chosen-IsChosen ([], []) series a h = cc h
chosen-IsChosen (name ∷ resolved, []) series a h =
    let same : (name ∷ resolved) ≡ series = cc h in subst IsChosen same ((λ e. cc e), a)

series_of-IsChosen :
    (t : Option Text) (series : List Text) → series_of t ≡ ok series → IsChosen series
unfolding series_of all
series_of-IsChosen none series h =
    let same : map (λ (s : Series). s.name) all ≡ series = cc h in
    subst IsChosen same ((λ e. cc e), map-IsKnown all)
series_of-IsChosen (some t) series h =
    chosen-IsChosen (resolve_names (retain not_empty (split t 44))) series
      (resolve_names-IsKnown (retain not_empty (split t 44))) h

bounded-inv :
    (series : List Text) (from to : ℤ) (step span : ℕ) (p : Params)
    → bounded series from to step span ≡ ok p
    → (record { series = series; from_ms = from; to_ms = to; step_s = step } ≡ p)
      × (step * 1000 < 2 ^ 63)
      × (span / (step * 1000) ≤ max_points_per_series)
bounded-inv series from to step span p h = elim (Bool-cases (ltb (step * 1000) (2 ^ 63))) [
  | inr e ↦ let refused = rw e at h in absurd (cc refused)
  | inl e ↦ elim (Bool-cases (ltb max_points_per_series (span / (step * 1000)))) [
    | inl f ↦ let refused = rw (e, f) at h in absurd (cc refused)
    | inr f ↦ let kept = rw (e, f) at h in (cc kept, ground (arith, e), ground (arith, f))
  ]
]

checked-inv : (a b : ℤ) → checked a ≡ some b → a ≡ b
checked-inv a b h = elim (Bool-cases (fits a)) [
  | inl e ↦ let kept = rw e at h in cc kept
  | inr e ↦ let refused = rw e at h in absurd (cc refused)
]

spanned-IsBounded :
    (series : List Text) (from to : ℤ) (step : ℕ) (p : Params) (o : Option ℤ)
    → IsChosen series
    → lt from to ≡ true
    → 1 ≤ step
    → checked_sub to from ≡ o
    → spanned series from to step o ≡ ok p
    → IsBounded p
spanned-IsBounded series from to step p none chosen forward positive e h = cc
spanned-IsBounded series from to step p (some (negsuc n)) chosen forward positive e h = cc
spanned-IsBounded series from to step p (some (pos span)) (named, known) forward positive e h =
    let (made, in_range, few) = bounded-inv series from to step span p h in
    subst IsBounded made (record {
      forward = forward;
      named = named;
      known = known;
      in_range = in_range;
      step = positive;
      span = span;
      spans = checked-inv (sub to from) (pos span) e;
      few = few;
    })

stepped-IsBounded :
    (series : List Text) (from to step : ℤ) (p : Params)
    → IsChosen series
    → lt from to ≡ true
    → stepped series from to step ≡ ok p
    → IsBounded p
stepped-IsBounded series from to (negsuc n) p chosen forward h = cc
stepped-IsBounded series from to (pos step) p chosen forward h = elim (Bool-cases (ltb step 1)) [
  | inl e ↦ let refused = rw e at h in absurd (cc refused)
  | inr e ↦
      spanned-IsBounded series from to step p (checked_sub to from) chosen forward
        (ground (arith, e)) refl (rw e at h)
]

check_range-IsBounded :
    (series : List Text) (from to step : ℤ) (p : Params)
    → IsChosen series
    → check_range series from to step ≡ ok p
    → IsBounded p
unfolding check_range
check_range-IsBounded series from to step p chosen h = elim (Bool-cases (lt from to)) [
  | inl e ↦ stepped-IsBounded series from to step p chosen e (rw (check_range, e) at h)
  | inr e ↦ let refused : (err empty_range ≡ ok p) = rw (check_range, e) at h in absurd (cc refused)
]

finish-IsBounded : (raw : Raw) (now_ms : ℤ) (p : Params) → finish raw now_ms ≡ ok p → IsBounded p
unfolding finish
finish-IsBounded raw now_ms p h = from_series (series_of raw.series_text) refl
  where
    from_series : (o : Outcome (List Text)) → series_of raw.series_text ≡ o → IsBounded p
    from_series (err e) s =
        let refused : (err e ≡ ok p) = rw (finish, s) at h in absurd (cc refused)
    from_series (ok series) s =
        elim (Option-cases (start_of_range raw.from_ms (unwrap_or raw.to_ms now_ms))) [
          | inl f ↦
              let refused : (err to_out_of_range ≡ ok p) = rw (finish, s, f) at h in
              absurd (cc refused)
          | inr (from, f) ↦
              check_range-IsBounded series from (unwrap_or raw.to_ms now_ms) raw.step_s p
                (series_of-IsChosen raw.series_text series s) (rw (finish, s, f) at h)
        ]

-- Whatever the query string, a query that is accepted names at least one series and only series of the catalog; its
-- range runs forward and has at most twenty thousand whole steps; and its step is at least a second, with its
-- milliseconds below 2 ^ 63, so that the store's arithmetic on it does not overflow.
pub parse-IsBounded :
    (query : Option Text) (now_ms : ℤ) (p : Params) → parse query now_ms ≡ ok p → IsBounded p
unfolding parse
parse-IsBounded query now_ms p h =
    from_pairs (read_pairs (retain not_empty (split (unwrap_or query []) 38)) no_parameters) refl
  where
    from_pairs :
        (o : Outcome Raw)
        → read_pairs (retain not_empty (split (unwrap_or query []) 38)) no_parameters ≡ o
        → IsBounded p
    from_pairs (err e) s = let refused : (err e ≡ ok p) = rw (parse, s) at h in absurd (cc refused)
    from_pairs (ok raw) s = finish-IsBounded raw now_ms p (rw (parse, s) at h)
