-- ===== src/History/Sampler/Engine/Snapshot.antt =====
-- What the engine's snapshot may put into the history: crates/console-server/src/history/sampler.rs.
use muser_console.Base.{
  ℕ, zero, suc, Bool, true, false, not, ◌&&◌, ◌==◌, ==_iff, ◌≤◌, ◌<◌, Bool-cases, Option-cases,
  Text, codes, text_eq_refl, split, List, [], length, Option, none, some, ◌>>=◌, All, ◌≡◌, ◌⊎◌, inl,
  inr, refl, sym, subst, ◌∙◌, arith,
}
use mathlib.Core.Option.{some-injective}
use muser_console.Float.{Float}
use muser_console.Catalog.Source.{Source}
use muser_console.Catalog.Honesty.{Honesty, measured, from_tag, as_str}
use muser_console.Catalog.Series.{Series}
use muser_console.Catalog.Lookup.{lookup, with_source}
use muser_console.Catalog.Laws.{from_tag_iff}
use muser_console.History.Table.{Sample}
use muser_console.History.Json.{Json}
use muser_console.History.Sampler.Engine.{
  Carry, finite, sample, walk, take, closest_tag, is_extension, untagged, honesty_for,
  is_transfer_last, snapshot_sample, receipt_of, is_news, collect_snapshot, snapshot_value, or_keep,
}
use muser_console.History.Sampler.Engine.Laws.{
  finite_is_finite, bind_some, Made, Told, told, with_source-lookup, filter_map-All,
}

only_news : (a b : Bool) → (a && not b) ≡ false → a ≡ true → b ≡ true
only_news a b h e = ground arith

not_fresh : (a b : Bool) → (a ≡ true → b ≡ true) → b ≡ false → a ≡ false
not_fresh true b f e = cc (f refl, e)
not_fresh false b f e = refl

module _ (float : Float) (json : Json float) where
  snapshot_sample-inv :
      (document : json.Value) (news : Bool) (name : Text) (ts_ms : ℕ) (series : Series)
      (s : Sample float)
      → snapshot_sample float json document news name ts_ms series ≡ some s
      → Made float Source.snapshot series s
        × ((path : Text) × (series.honesty_path ≡ some path)
            × (honesty_for float json document path ≡ some s.honesty))
        × (is_transfer_last float json series.extraction ≡ true → news ≡ true)
  unfolding snapshot_sample
  snapshot_sample-inv document news name ts_ms series s h =
      elim (Option-cases series.honesty_path) [
        | inl e ↦ let refused : (none ≡ some s) = rw e at h in absurd (cc refused)
        | inr (path, e) ↦
            elim (Bool-cases (is_transfer_last float json series.extraction && not news)) [
              | inl b ↦ let refused : (none ≡ some s) = rw (e, b) at h in absurd (cc refused)
              | inr b ↦ elim (Option-cases (honesty_for float json document path)) [
                | inl f ↦ let refused : (none ≡ some s) = rw (e, b, f) at h in absurd (cc refused)
                | inr (tag, f) ↦
                    let (v, g, made) =
                      bind_some float
                        (finite float (snapshot_value float json document series.extraction))
                        (λ v. sample float name ts_ms series Source.snapshot tag v) s
                        (rw (e, b, f) at h) in
                    let fin =
                      finite_is_finite float (snapshot_value float json document series.extraction)
                        v g in
                    subst
                      (λ (x : Sample float).
                        Made float Source.snapshot series x
                        × ((path : Text) × (series.honesty_path ≡ some path)
                            × (honesty_for float json document path ≡ some x.honesty))
                        × (is_transfer_last float json series.extraction ≡ true → news ≡ true))
                      made
                      (
                        (refl, refl, fin),
                        (path, e, f),
                        only_news (is_transfer_last float json series.extraction) news b,
                      )
              ]
            ]
      ]

  abbrev pub receipt_is_new : json.Value → Carry float → Bool
  receipt_is_new document carry =
      is_news float json (receipt_of float json document) carry.transfer_receipt

  -- what is said of a sample that stands for an entry of the snapshot
  abbrev pub Tagged : json.Value → Carry float → Sample float → Type 0
  Tagged document carry s =
      (series : Series) × (lookup s.series ≡ some series)
      × ((path : Text) × (series.honesty_path ≡ some path)
          × (honesty_for float json document path ≡ some s.honesty))
      × (is_transfer_last float json series.extraction ≡ true
          → receipt_is_new document carry ≡ true)

  -- Every sample that `collect_snapshot` makes of a document is of the catalog's snapshot plane and finite, has
  -- the honesty that the document's own sidecar gives to the entry, and describes the last transfer only if
  -- the receipt of that transfer changed since the tick before.
  pub collect_snapshot-Told :
      (document : json.Value) (name : Text) (ts_ms : ℕ) (carry : Carry float)
      → All
          (λ (s : Sample float). Told float Source.snapshot s × Tagged document carry s)
          (collect_snapshot float json document name ts_ms carry []).1
  unfolding collect_snapshot
  collect_snapshot-Told document name ts_ms carry =
      filter_map-All _
        (snapshot_sample float json document (receipt_is_new document carry) name ts_ms)
        (with_source Source.snapshot)
        (λ series s entry made.
          let (m, tag, news) =
            snapshot_sample-inv document (receipt_is_new document carry) name ts_ms series s made in
          let found = (with_source-lookup Source.snapshot series entry).0 in
          (
            told float Source.snapshot series s entry m,
            (series, subst (λ n. lookup n ≡ some series) (sym m.0) found, tag, news),
          ))

  stale :
      (receipt : Option Text) (old : Option Text)
      → is_news float json receipt (or_keep float receipt old) ≡ false
  stale none old = refl
  stale (some new) old = rw (text_eq_refl new)

  -- A transfer is described once: the document of one tick, read again in the next, yields no sample of an entry
  -- that describes the last transfer.
  pub transfer_described_once :
      (document : json.Value) (name : Text) (ts_ms later : ℕ) (carry : Carry float)
      → let again = (collect_snapshot float json document name ts_ms carry []).0 in
        All
          (λ (s : Sample float).
            (series : Series) × (lookup s.series ≡ some series)
            × (is_transfer_last float json series.extraction ≡ false))
          (collect_snapshot float json document name later again []).1
  unfolding collect_snapshot
  transfer_described_once document name ts_ms later carry =
      let receipt = receipt_of float json document in
      let news = is_news float json receipt (or_keep float receipt carry.transfer_receipt) in
      filter_map-All _ (snapshot_sample float json document news name later)
        (with_source Source.snapshot)
        (λ series s entry made.
          let (m, tag, fresh) = snapshot_sample-inv document news name later series s made in
          (
            series,
            subst (λ n. lookup n ≡ some series) (sym m.0)
                (with_source-lookup Source.snapshot series entry).0,
            not_fresh (is_transfer_last float json series.extraction) news fresh
                (stale receipt carry.transfer_receipt),
          ))

  abbrev pub tag_at : json.Value → List Text → ℕ → Option Text
  tag_at sidecar segments n = walk float json sidecar (take float json n segments) >>= json.as_str

  -- The tag is what the sidecar has at a prefix of the path, and it has none at a longer prefix, up to that bound.
  abbrev pub Closest : json.Value → List Text → ℕ → Text → Type 0
  Closest sidecar segments bound tag =
      (n : ℕ) × (tag_at sidecar segments n ≡ some tag)
      × ((m : ℕ) → n < m → m ≤ bound → tag_at sidecar segments m ≡ none)

  closest_tag_sound :
      (sidecar : json.Value) (segments : List Text) (n : ℕ) (tag : Text)
      → closest_tag float json sidecar segments n ≡ some tag
      → Closest sidecar segments n tag
  unfolding closest_tag
  closest_tag_sound sidecar segments zero tag h = cc
  closest_tag_sound sidecar segments (suc n) tag h =
      elim (Option-cases (tag_at sidecar segments (suc n))) [
        | inl e ↦
            let (k, found, none_longer) =
              closest_tag_sound sidecar segments n tag (rw (closest_tag, e) at h) in
            (
              k,
              found,
              λ m above below. elim (Bool-cases (m == suc n)) [
                | inl at ↦
                    subst (λ i. tag_at sidecar segments i ≡ none) (sym ((==_iff m (suc n)).0 at)) e
                | inr other ↦ none_longer m above (ground (arith, other, below))
              ],
            )
        | inr (t, e) ↦ (
          suc n,
          e ∙ (rw (closest_tag, e) at h),
          λ m above below. absurd (omega (arith, above, below)),
        )
      ]

  untagged_sound :
      (segments : List Text) (h : Honesty)
      → untagged float json segments ≡ some h
      → (is_extension float json segments ≡ true) × (h ≡ measured)
  untagged_sound segments h e = elim (Bool-cases (is_extension float json segments)) [
    | inl x ↦
        let here : (some measured ≡ some h) = rw x at e in (x, sym (some-injective measured h here))
    | inr x ↦ let here : (none ≡ some h) = rw x at e in absurd (cc here)
  ]

  -- A honesty that `honesty_for` gives is written in the document: its sidecar has that very tag at a prefix of
  -- the path, and no tag at a longer prefix. Only a `_`-prefixed extension goes without one, and is then measured.
  pub honesty_for_sound :
      (document : json.Value) (path : Text) (h : Honesty)
      → honesty_for float json document path ≡ some h
      → ((is_extension float json (split path 46) ≡ true) × (h ≡ measured))
        ⊎ ((sidecar : json.Value) × (json.get document (codes "_honesty") ≡ some sidecar)
            × Closest sidecar (split path 46) (length (split path 46)) (as_str h))
  unfolding honesty_for
  honesty_for_sound document path h e = elim (Option-cases (json.get document (codes "_honesty"))) [
    | inl none_there ↦ inl (untagged_sound (split path 46) h (rw (honesty_for, none_there) at e))
    | inr (sidecar, s) ↦
        elim (Option-cases
          (closest_tag float json sidecar (split path 46) (length (split path 46)))) [
            | inl c ↦ inl (untagged_sound (split path 46) h (rw (honesty_for, s, c) at e))
            | inr (tag, c) ↦
                let given : (from_tag tag ≡ some h) = rw (honesty_for, s, c) at e in
                let same_tag = (from_tag_iff tag h).0 given in
                inr (
                  sidecar,
                  s,
                  subst (Closest sidecar (split path 46) (length (split path 46))) same_tag
                      (closest_tag_sound sidecar (split path 46) (length (split path 46)) tag c),
                )
          ]
  ]
