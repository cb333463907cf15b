-- ===== src/History/Sampler/Agents/Laws.antt =====
-- What an exporter's document may put into the history: `collect_agent` of
-- crates/console-server/src/history/sampler.rs.
use muser_console.Base.{
  ℕ, true, Text, List, [], ◌++◌, append-nil, some, All, Bool-cases, ◌≡◌, inl, inr, refl, sym, subst,
}
use muser_console.Float.{Float}
use muser_console.Catalog.Source.{Source}
use muser_console.Catalog.Honesty.{agent_measured}
use muser_console.Catalog.Series.{
  Series, Extraction, prometheus, snapshot, transfers_active, transfer_last, agent,
}
use muser_console.Catalog.Lookup.{with_source}
use muser_console.History.Table.{Sample}
use muser_console.History.Prom.{filter_map, parse}
use muser_console.History.Prom
use muser_console.History.Sampler.Engine.{sample}
use muser_console.History.Sampler.Engine.Laws.{
  Told, told, Made, bind_some, filter_map-All, finite_is_finite,
}
use muser_console.History.Sampler.Agents.{
  agent_value, agent_reading, agent_sample, collect_agent, is_down,
}

module _ (float : Float) where
  reading_finite :
      (exposition : Prom.Exposition float) (x : Extraction) (v : float.F64)
      → agent_reading float exposition x ≡ some v
      → float.is_finite v ≡ true
  unfolding agent_reading
  reading_finite exposition (agent metric gpu) v h =
      finite_is_finite float (agent_value float exposition metric gpu) v h
  reading_finite exposition (prometheus _ _) v h = cc
  reading_finite exposition (snapshot _) v h = cc
  reading_finite exposition transfers_active v h = cc
  reading_finite exposition (transfer_last _ _) v h = cc

  agent_sample-inv :
      (exposition : Prom.Exposition float) (name : Text) (ts_ms : ℕ) (series : Series)
      (s : Sample float)
      → agent_sample float exposition name ts_ms series ≡ some s
      → Made float Source.agent series s × (s.honesty ≡ agent_measured)
  unfolding agent_sample
  agent_sample-inv exposition name ts_ms series s h =
      let (v, e, made) =
        bind_some float (agent_reading float exposition series.extraction)
          (λ v. sample float name ts_ms series Source.agent agent_measured v) s h in
      let fin = reading_finite exposition series.extraction v e in
      subst (λ (x : Sample float). Made float Source.agent series x × (x.honesty ≡ agent_measured))
        made ((refl, refl, fin), refl)

  -- what one document may add
  abbrev pub FromAgent : Sample float → Type 0
  FromAgent s = Told float Source.agent s × (s.honesty ≡ agent_measured)

  -- Every sample that `collect_agent` adds to a batch is of the catalog's agent plane, carries the honesty of an
  -- agent's measurement and a finite value; what the batch held stays in front of it; and a document in which
  -- the exporter says that its source is down adds nothing.
  pub collect_agent-told :
      (text name : Text) (ts_ms : ℕ) (batch : List (Sample float))
      → (added : List (Sample float)) × ((collect_agent float text name ts_ms batch).1
          ≡ (batch ++ added))
        × All FromAgent added
        × (is_down float (parse float text) ≡ true → added ≡ [])
  unfolding collect_agent
  collect_agent-told text name ts_ms batch = elim (Bool-cases (is_down float (parse float text))) [
    | inl e ↦ ([], rw (collect_agent, e) (sym (append-nil batch)), tt, λ d. refl)
    | inr e ↦ (
      filter_map (agent_sample float (parse float text) name ts_ms) (with_source Source.agent),
      rw (collect_agent, e),
      filter_map-All FromAgent (agent_sample float (parse float text) name ts_ms)
          (with_source Source.agent)
          (λ series s entry made.
            let (m, honest) = agent_sample-inv (parse float text) name ts_ms series s made in
            (told float Source.agent series s entry m, honest)),
      λ d. cc (d, e),
    )
  ]
