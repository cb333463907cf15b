-- ===== src/History/Sampler/Engine/Laws.antt =====
-- What the engine's exposition may put into the history: crates/console-server/src/history/sampler.rs.
use muser_console.Base.{
  ℕ, Bool, true, Bool-cases, Option-cases, Text, codes, text_eq, text_eq_iff, List, [], ◌∷◌, Option,
  none, some, ◌>>=◌, retain, All, ◌≡◌, ◌⊎◌, inl, inr, refl, sym, subst, ◌∙◌,
}
use mathlib.Core.Option.{some-injective}
use muser_console.Float.{Float}
use muser_console.Catalog.Source.{Source, same}
use muser_console.Catalog.Honesty.{measured}
use muser_console.Catalog.Series.{
  Series, Extraction, prometheus, snapshot, transfers_active, transfer_last, agent,
}
use muser_console.Catalog.Lookup.{all, lookup, with_source}
use muser_console.Catalog.Laws.{Entry, lookup_iff}
use muser_console.History.Table.{Sample}
use muser_console.History.Prom.{filter_map, parse}
use muser_console.History.Prom
use muser_console.History.Sampler.Engine.{
  Carry, advanced, finite, metrics_value, sample, metrics_sample, collect_metrics,
}

-- what holds of the image of every entry holds of all that `filter_map` keeps
pub filter_map-All :
    {B : Type 0} (P : B → Type 0) (f : Series → Option B) (l : List Series)
    → ((s : Series) (b : B) → Entry s l → f s ≡ some b → P b)
    → All P (filter_map f l)
filter_map-All P f [] h = tt
filter_map-All P f (s ∷ l) h =
    let rest = filter_map-All P f l (λ t b e. h t b (inr e)) in
    elim (Option-cases (f s)) [
      | inl e ↦ rw (filter_map, e) rest
      | inr (b, e) ↦ rw (filter_map, e) (h s b (inl refl) e, rest)
    ]

same_source : (a b : Source) → same a b ≡ true → a ≡ b
same_source Source.metrics Source.metrics h = refl
same_source Source.snapshot Source.snapshot h = refl
same_source Source.agent Source.agent h = refl
same_source Source.metrics Source.snapshot h = cc
same_source Source.metrics Source.agent h = cc
same_source Source.snapshot Source.metrics h = cc
same_source Source.snapshot Source.agent h = cc
same_source Source.agent Source.metrics h = cc
same_source Source.agent Source.snapshot h = cc

Entry-retain :
    (p : Series → Bool) (s : Series) (l : List Series)
    → Entry s (retain p l)
    → Entry s l × (p s ≡ true)
Entry-retain p s [] e = elim e [ ]
Entry-retain p s (t ∷ l) e = elim (Bool-cases (p t)) [
  | inr h ↦ let (entry, passes) = Entry-retain p s l (rw h at e) in (inr entry, passes)
  | inl h ↦
      let kept : ((t ≡ s) ⊎ Entry s (retain p l)) = rw h at e in
      elim kept [
        | inl x ↦ (inl x, subst (λ y. p y ≡ true) x h)
        | inr x ↦ let (entry, passes) = Entry-retain p s l x in (inr entry, passes)
      ]
]

-- the entry that `lookup` finds for the name of an entry of a plane
pub with_source-lookup :
    (source : Source) (s : Series)
    → Entry s (with_source source)
    → (lookup s.name ≡ some s) × (s.source ≡ source)
unfolding with_source
with_source-lookup source s e =
    let (entry, tagged) = Entry-retain (λ t. same t.source source) s all e in
    ((lookup_iff s.name s).1 (entry, refl), same_source s.source source tagged)

module _ (float : Float) where
  pub finite_is_finite :
      (o : Option float.F64) (x : float.F64) → finite float o ≡ some x → float.is_finite x ≡ true
  finite_is_finite none x h = cc
  finite_is_finite (some v) x h = elim (Bool-cases (float.is_finite v)) [
    | inl e ↦
        let here : (finite float (some v) ≡ some v) = rw e in
        let at : (v ≡ x) = cc (h, here) in subst (λ y. float.is_finite y ≡ true) at e
    | inr e ↦ let here : (finite float (some v) ≡ none) = rw e in absurd (cc (h, here))
  ]

  -- what a collector of a plane says of a sample that it makes from an entry
  abbrev pub Made : Source → Series → Sample float → Type 0
  Made source series s =
      (s.series ≡ series.name) × (s.source ≡ source) × (float.is_finite s.value ≡ true)

  pub bind_some :
      (o : Option float.F64) (f : float.F64 → Sample float) (s : Sample float)
      → (o >>= (λ v. some (f v))) ≡ some s
      → (v : float.F64) × (o ≡ some v) × (f v ≡ s)
  bind_some none f s h = cc
  bind_some (some v) f s h = (v, refl, some-injective (f v) s h)

  metrics_value-inv :
      (exposition : Prom.Exposition float) (completed : Bool) (series : Text) (x : Extraction)
      (v : float.F64)
      → metrics_value float exposition completed series x ≡ some v
      → (float.is_finite v ≡ true)
        × (text_eq series (codes "request_decode_tok_s") ≡ true → completed ≡ true)
  unfolding metrics_value
  metrics_value-inv exposition completed series (snapshot _) v h = cc
  metrics_value-inv exposition completed series transfers_active v h = cc
  metrics_value-inv exposition completed series (transfer_last _ _) v h = cc
  metrics_value-inv exposition completed series (agent _ _) v h = cc
  metrics_value-inv exposition completed series (prometheus metric quantile) v h =
      elim (Bool-cases (text_eq series (codes "request_decode_tok_s"))) [
        | inr e ↦ (
          finite_is_finite (Prom.value float exposition metric quantile) v (rw e at h),
          λ d. cc (d, e),
        )
        | inl e ↦ elim (Bool-cases completed) [
          | inl c ↦ (
            finite_is_finite (Prom.value float exposition metric quantile) v (rw (e, c) at h),
            λ d. c,
          )
          | inr c ↦ let refused : (none ≡ some v) = rw (e, c) at h in absurd (cc refused)
        ]
      ]

  metrics_sample-inv :
      (exposition : Prom.Exposition float) (completed : Bool) (name : Text) (ts_ms : ℕ)
      (series : Series) (s : Sample float)
      → metrics_sample float exposition completed name ts_ms series ≡ some s
      → Made Source.metrics series s
        × (s.honesty ≡ measured)
        × (text_eq series.name (codes "request_decode_tok_s") ≡ true → completed ≡ true)
  unfolding metrics_sample
  metrics_sample-inv exposition completed name ts_ms series s h =
      let (v, e, made) =
        bind_some (metrics_value float exposition completed series.name series.extraction)
          (λ v. sample float name ts_ms series Source.metrics measured v) s h in
      let (fin, decode) =
        metrics_value-inv exposition completed series.name series.extraction v e in
      subst
        (λ (x : Sample float).
          Made Source.metrics series x
          × (x.honesty ≡ measured)
          × (text_eq series.name (codes "request_decode_tok_s") ≡ true → completed ≡ true))
        made ((refl, refl, fin), refl, decode)

  -- A sample of a plane: its name is that of a catalog entry of the plane, and its value is finite.
  abbrev pub Told : Source → Sample float → Type 0
  Told source s =
      (series : Series) × (lookup s.series ≡ some series)
      × (series.source ≡ source)
      × (s.source ≡ source)
      × (float.is_finite s.value ≡ true)

  pub told :
      (source : Source) (series : Series) (s : Sample float)
      → Entry series (with_source source)
      → Made source series s
      → Told source s
  told source series s entry (name, plane, fin) =
      let (found, tagged) = with_source-lookup source series entry in
      (series, subst (λ n. lookup n ≡ some series) (sym name) found, tagged, plane, fin)

  -- whether the counter of completed requests advanced since the value that is carried
  abbrev pub completed : Text → Carry float → Bool
  completed text carry =
      advanced float carry.completion_tokens
        (Prom.value float (parse float text) (codes "muser_completion_tokens_total") none)

  -- Every sample that `collect_metrics` makes of an exposition is of the catalog's metrics plane, measured and
  -- finite, and the decode rate of the last request is among them only if a request was completed since the
  -- tick before.
  pub collect_metrics-Told :
      (text name : Text) (ts_ms : ℕ) (carry : Carry float)
      → All
          (λ (s : Sample float).
            Told Source.metrics s
            × (s.honesty ≡ measured)
            × (s.series ≡ codes "request_decode_tok_s" → completed text carry ≡ true))
          (collect_metrics float text name ts_ms carry []).1
  unfolding collect_metrics
  collect_metrics-Told text name ts_ms carry =
      filter_map-All _ (metrics_sample float (parse float text) (completed text carry) name ts_ms)
        (with_source Source.metrics)
        (λ series s entry made.
          let (m, honest, decode) =
            metrics_sample-inv (parse float text) (completed text carry) name ts_ms series s made in
          (
            told Source.metrics series s entry m,
            honest,
            λ n. decode ((text_eq_iff series.name (codes "request_decode_tok_s")).1 (sym m.0 ∙ n)),
          ))
