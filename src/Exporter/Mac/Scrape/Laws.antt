-- ===== src/Exporter/Mac/Scrape/Laws.antt =====
-- Where the readings come from that agents/mac-exporter/src/exporter.rs serves.
use muser_console.Base.{
  ℕ, ◌-◌, ◌≤◌, Bool, true, false, ltb, Text, codes, List, ◌∷◌, ◌++◌, Any, Option, none, some,
  Bool-cases, Option-cases, ◌≡◌, ◌⊎◌, refl, subst, inl, inr, arith,
}
use muser_console.Float.{Float}
use muser_console.Exporter.Mac.Parse.{Reading, parse_powermetrics}
use muser_console.Exporter.Mac.Scrape.{
  Sample, Outcome, sampled, failed, Cached, Served, Scrape, Exporter, is_news, fresh_reading,
  note_state, available, measured, locked, scrape,
}

module _ (float : Float) where
  -- the reading of one of these samples, completed when that sample was
  abbrev pub IsRead : List (Sample float) → Reading float → Option float.F64 → ℕ → Type 0
  IsRead samples reading unix at =
      Any
        (λ (x : Sample float).
          (reading ≡ parse_powermetrics float x.text)
          × (unix ≡ x.completed_unix_s)
          × (at ≡ x.completed_at))
        samples

  -- what the cache holds comes from one of these samples
  abbrev pub IsSourced : List (Sample float) → Option (Cached float) → Type 0
  IsSourced samples none = Unit
  IsSourced samples (some c) = IsRead samples c.reading c.completed_unix_s c.completed_at

  -- the samples once this outcome is in
  abbrev pub delivered : Outcome float → List (Sample float) → List (Sample float)
  delivered (sampled x) samples = x ∷ samples
  delivered (failed e) samples = samples

  -- A scrape that serves a reading is up, and the reading is that of a sample, of the age that it states at the
  -- instant `at`; it is at most `max_age` old or has just been measured. One that serves nothing is down.
  abbrev pub IsTruthful :
      List (Sample float) → ℕ → Outcome float → ℕ → ℕ → ℕ → Scrape float → Type 0
  IsTruthful samples max_age outcome first second ended r = elim r.served [
    | none ↦ (r.up ≡ false)
    | some v ↦
        (r.up ≡ true)
        × ((completed : ℕ) × IsRead samples v.reading v.completed_unix_s completed
            × (((v.age ≤ max_age) × ((v.age ≡ first - completed) ⊎ (v.age ≡ second - completed)))
                ⊎ ((x : Sample float) × (outcome ≡ sampled x)
                    × (v.age ≡ ended - x.completed_at)
                    × (completed ≡ x.completed_at))))
  ]

  fresh_IsRead :
      (s : Exporter float) (samples : List (Sample float)) (now : ℕ) (v : Served float)
      → IsSourced samples s.cached
      → fresh_reading float s now ≡ some v
      → (completed : ℕ) × IsRead samples v.reading v.completed_unix_s completed
        × (v.age ≤ s.max_age)
        × (v.age ≡ now - completed)
  unfolding fresh_reading
  fresh_IsRead s samples now v from h = elim (Option-cases s.cached) [
    | inl e ↦ cc (rw (fresh_reading, e) at h)
    | inr (c, e) ↦ elim (Bool-cases (ltb s.max_age (now - c.completed_at))) [
      | inl old ↦ cc (rw (fresh_reading, e, old) at h)
      | inr young ↦
          let made : some (record {
            reading = c.reading;
            completed_unix_s = c.completed_unix_s;
            age = now - c.completed_at;
          })
              ≡ some v =
            rw (fresh_reading, e, young) at h in
          let same : record {
            reading = c.reading;
            completed_unix_s = c.completed_unix_s;
            age = now - c.completed_at;
          }
              ≡ v =
            cc made in
          let there : IsRead samples c.reading c.completed_unix_s c.completed_at =
            subst (IsSourced samples) e from in
          subst
            (λ (w : Served float).
              (completed : ℕ) × IsRead samples w.reading w.completed_unix_s completed
              × (w.age ≤ s.max_age)
              × (w.age ≡ now - completed))
            same (c.completed_at, there, ground (arith, young), refl)
    ]
  ]

  note_state-cached :
      (s : Exporter float) (up : Bool) (message : Text)
      → (note_state float s up message).cached ≡ s.cached
  unfolding note_state
  note_state-cached s up message = elim (Bool-cases (is_news s.last_up up)) [
    | inl e ↦ rw (note_state, e) refl
    | inr e ↦ rw (note_state, e) refl
  ]

  still_IsRead :
      (outcome : Outcome float) (samples : List (Sample float)) (reading : Reading float)
      (unix : Option float.F64) (at' : ℕ)
      → IsRead samples reading unix at'
      → IsRead (delivered outcome samples) reading unix at'
  still_IsRead (sampled x) samples reading unix at' h = inr h
  still_IsRead (failed e) samples reading unix at' h = h

  still_IsSourced :
      (outcome : Outcome float) (samples : List (Sample float)) (c : Option (Cached float))
      → IsSourced samples c
      → IsSourced (delivered outcome samples) c
  still_IsSourced outcome samples none h = tt
  still_IsSourced outcome samples (some c) h =
      still_IsRead outcome samples c.reading c.completed_unix_s c.completed_at h

  measured_sound :
      (s : Exporter float) (samples : List (Sample float)) (started first second ended max_age : ℕ)
      (outcome : Outcome float)
      → IsSourced samples s.cached
      → IsSourced (delivered outcome samples) (measured float s started ended outcome).0.cached
        × IsTruthful
            (delivered outcome samples)
            max_age
            outcome
            first
            second
            ended
            (measured float s started ended outcome).1
  unfolding measured
  measured_sound s samples started first second ended max_age (failed e) from = (
    rw
        (note_state-cached s false
          (codes "no reading: " ++ (e.detail ++ codes " (publishing nothing)")))
        from,
    refl,
  )
  measured_sound s samples started first second ended max_age (sampled x) from =
      let reading = parse_powermetrics float x.text in
      let kept : Cached float = record {
        reading = reading;
        completed_unix_s = x.completed_unix_s;
        completed_at = x.completed_at;
      } in
      (
        rw (note_state-cached (record s { cached = some kept }) true (available float reading))
            (inl (refl, refl, refl)),
        (refl, (x.completed_at, inl (refl, refl, refl), inr (x, refl, refl, refl))),
      )

  -- Every reading that is served was measured: it is what a sample of the source says, with its true age, and
  -- is at most `max_age` old unless this very scrape measured it; a scrape that gets no sample serves nothing,
  -- whatever the cache still holds. This holds whatever other scrapes did to the cache before the lock, and
  -- the cache goes on to hold a sample's reading.
  pub scrape-IsTruthful :
      (s s' : Exporter float) (samples : List (Sample float))
      (started first second ended max_age : ℕ) (outcome : Outcome float)
      → s.max_age ≡ max_age
      → s'.max_age ≡ max_age
      → IsSourced samples s.cached
      → IsSourced samples s'.cached
      → let (after, result) = scrape float s s' started first second ended outcome in
        IsSourced (delivered outcome samples) after.cached
        × IsTruthful (delivered outcome samples) max_age outcome first second ended result
  unfolding scrape locked
  scrape-IsTruthful s s' samples started first second ended max_age outcome m m' from from' =
      elim (Option-cases (fresh_reading float s first)) [
        | inr (v, e) ↦
            let (completed, is, young, age) = fresh_IsRead s samples first v from e in
            rw (scrape, e)
              (
                still_IsSourced outcome samples s'.cached from',
                (
                  refl,
                  (
                    completed,
                    still_IsRead outcome samples v.reading v.completed_unix_s completed is,
                    inl (rw m at young, inl age),
                  ),
                ),
              )
        | inl e ↦ elim (Option-cases (fresh_reading float s' second)) [
          | inr (v, f) ↦
              let (completed, is, young, age) = fresh_IsRead s' samples second v from' f in
              rw (scrape, e, locked, f)
                (
                  still_IsSourced outcome samples s'.cached from',
                  (
                    refl,
                    (
                      completed,
                      still_IsRead outcome samples v.reading v.completed_unix_s completed is,
                      inl (rw m' at young, inr age),
                    ),
                  ),
                )
          | inl f ↦
              rw (scrape, e, locked, f)
                (measured_sound s' samples started first second ended max_age outcome from')
        ]
      ]
