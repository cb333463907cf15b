-- ===== src/History/Sampler/Tick/Laws.antt =====
-- What a whole tick of crates/console-server/src/history/sampler.rs hands to the store.
use muser_console.Base.{
  ℕ, Bool, true, false, not, Text, codes, starts_with, List, [], ◌∷◌, ◌++◌, append-nil, Option, All,
  All-append, All-retain, retain-passes, Bool-cases, ◌≡◌, inl, inr, refl, ap, ◌∙◌,
}
use muser_console.Float.{Float}
use muser_console.Catalog.Source.{Source}
use muser_console.Catalog.Laws.{agent-no_dflash}
use muser_console.History.Table.{Sample}
use muser_console.History.Json.{Json}
use muser_console.History.Prom.{parse}
use muser_console.History.Sampler.Engine.{
  collect_metrics, collect_snapshot, gate_optional_features, dflash_configured,
}
use muser_console.History.Sampler.Engine.Laws.{Told, collect_metrics-Told}
use muser_console.History.Sampler.Engine.Snapshot.{collect_snapshot-Told}
use muser_console.History.Sampler.Agents.{is_down}
use muser_console.History.Sampler.Agents.Laws.{FromAgent, collect_agent-told}
use muser_console.History.Sampler.Tick.{
  Fetched, got, failed, got_value, AgentBody, Sampler, metrics_part, snapshot_part,
  collect_agent_tick, agent_parts, tick,
}

module _ (float : Float) (json : Json float) where
  -- a sample of one of the planes
  abbrev pub Sound : Sample float → Type 0
  Sound s = (plane : Source) × Told float plane s

  All-map :
      (P Q : Sample float → Type 0) (l : List (Sample float))
      → ((s : Sample float) → P s → Q s)
      → All P l
      → All Q l
  All-map P Q [] f h = tt
  All-map P Q (s ∷ l) f (hs, h) = (f s hs, All-map P Q l f h)

  metrics_part-Sound :
      (fetched : Fetched Text) (name : Text) (ts_ms : ℕ) (s : Sampler float json)
      → All Sound (metrics_part float json fetched name ts_ms (s, [])).1
  unfolding metrics_part
  metrics_part-Sound (failed reason) name ts_ms s = tt
  metrics_part-Sound (got text) name ts_ms s =
      All-map _ Sound (collect_metrics float text name ts_ms s.carry []).1
        (λ x (t, _, _). (Source.metrics, t)) (collect_metrics-Told float text name ts_ms s.carry)

  snapshot_part-Sound :
      (fetched : Fetched json.Value) (name : Text) (ts_ms : ℕ) (s : Sampler float json)
      (batch : List (Sample float))
      → All Sound batch
      → All Sound (snapshot_part float json fetched name ts_ms (s, batch)).1
  unfolding snapshot_part collect_snapshot
  snapshot_part-Sound (failed reason) name ts_ms s batch h = h
  snapshot_part-Sound (got document) name ts_ms s batch h =
      All-append Sound batch (collect_snapshot float json document name ts_ms s.carry []).1 h (
        All-map _ Sound (collect_snapshot float json document name ts_ms s.carry []).1
          (λ x (t, _). (Source.snapshot, t))
          (collect_snapshot-Told float json document name ts_ms s.carry))

  -- a predicate that agents' samples have is kept by the agents' part of a tick
  agent_parts-All :
      (P : Sample float → Type 0) (agents : List AgentBody) (name : Text) (ts_ms : ℕ)
      (s : Sampler float json) (batch : List (Sample float))
      → ((x : Sample float) → FromAgent float x → P x)
      → All P batch
      → All P (agent_parts float json agents name ts_ms (s, batch)).1
  unfolding agent_parts
  agent_parts-All P [] name ts_ms s batch f h = h
  agent_parts-All P (a ∷ agents) name ts_ms s batch f h =
      agent_parts-All P agents name ts_ms (collect_agent_tick float json a name ts_ms (s, batch)).0
        (collect_agent_tick float json a name ts_ms (s, batch)).1 f (one a.body refl)
    where
      one :
          (b : Fetched Text)
          → a.body ≡ b
          → All P (collect_agent_tick float json a name ts_ms (s, batch)).1
      one (failed reason) e = rw (collect_agent_tick, e) h
      one (got text) e =
          let (added, split, told, down) = collect_agent-told float text name ts_ms batch in
          rw (collect_agent_tick, e)
            (rw split (All-append P batch added h (All-map (FromAgent float) P added f told)))

  gate-All :
      (P : Sample float → Type 0) (document : Option json.Value) (batch : List (Sample float))
      → All P batch
      → All P (gate_optional_features float json document batch)
  unfolding gate_optional_features
  gate-All P document batch h = elim (Bool-cases (dflash_configured float json document)) [
    | inl e ↦ rw (gate_optional_features, e) h
    | inr e ↦ rw (gate_optional_features, e) (All-retain P _ batch h)
  ]

  abbrev pub is_dflash : Sample float → Bool
  is_dflash s = starts_with s.series (codes "dflash_")

  not-true : (b : Bool) → not b ≡ true → b ≡ false
  not-true true e = cc
  not-true false e = refl

  gate-drops :
      (document : Option json.Value) (batch : List (Sample float))
      → dflash_configured float json document ≡ false
      → All (λ s. is_dflash s ≡ false) (gate_optional_features float json document batch)
  unfolding gate_optional_features
  gate-drops document batch e =
      rw (gate_optional_features, e)
        (All-map _ (λ s. is_dflash s ≡ false) _ (λ s h. not-true (is_dflash s) h)
          (retain-passes (λ s. not (is_dflash s)) batch))

  -- All that a tick hands to the store is told by one of the planes: each sample has the name of an entry of the
  -- catalog, that entry's source, and a finite value.
  pub tick-Sound :
      (metrics : Fetched Text) (document : Fetched json.Value) (agents : List AgentBody)
      (name : Text) (ts_ms : ℕ) (s : Sampler float json)
      → All Sound (tick float json metrics document agents name ts_ms s).1
  unfolding tick
  tick-Sound metrics document agents name ts_ms s =
      let part = metrics_part float json metrics name ts_ms (s, []) in
      let engine = snapshot_part float json document name ts_ms part in
      agent_parts-All Sound agents name ts_ms engine.0
        (gate_optional_features float json (got_value document) engine.1)
        (λ x (t, _). (Source.agent, t))
        (gate-All Sound (got_value document) engine.1 (
          snapshot_part-Sound document name ts_ms part.0 part.1
            (metrics_part-Sound metrics name ts_ms s)))

  -- A tick whose snapshot is missing, or lacks the marker of the DFlash runtime, stores no `dflash_` series of any
  -- plane, whatever the exposition and the exporters say.
  pub tick-gates :
      (metrics : Fetched Text) (document : Fetched json.Value) (agents : List AgentBody)
      (name : Text) (ts_ms : ℕ) (s : Sampler float json)
      → dflash_configured float json (got_value document) ≡ false
      → All (λ x. is_dflash x ≡ false) (tick float json metrics document agents name ts_ms s).1
  unfolding tick
  tick-gates metrics document agents name ts_ms s e =
      let part = metrics_part float json metrics name ts_ms (s, []) in
      let engine = snapshot_part float json document name ts_ms part in
      agent_parts-All (λ x. is_dflash x ≡ false) agents name ts_ms engine.0
        (gate_optional_features float json (got_value document) engine.1)
        (λ x ((series, found, tagged, _, _), _). agent-no_dflash x.series series found tagged)
        (gate-drops (got_value document) engine.1 e)

  -- an exporter that has nothing to say: not reached, or reached while its own source is down
  abbrev pub Quiet : Fetched Text → Type 0
  Quiet (got text) = is_down float (parse float text) ≡ true
  Quiet (failed reason) = Unit

  Quiet-part :
      (a : AgentBody) (name : Text) (ts_ms : ℕ) (s : Sampler float json)
      (batch : List (Sample float))
      → Quiet a.body
      → (collect_agent_tick float json a name ts_ms (s, batch)).1 ≡ batch
  unfolding collect_agent_tick
  Quiet-part a name ts_ms s batch q = one a.body refl q
    where
      one :
          (b : Fetched Text)
          → a.body ≡ b
          → Quiet b
          → (collect_agent_tick float json a name ts_ms (s, batch)).1 ≡ batch
      one (failed reason) e d = rw (collect_agent_tick, e)
      one (got text) e d =
          let (added, split, told, down) = collect_agent-told float text name ts_ms batch in
          rw (collect_agent_tick, e) (split ∙ ap (◌++◌ batch) (down d) ∙ append-nil batch)

  Quiet-parts :
      (agents : List AgentBody) (name : Text) (ts_ms : ℕ) (s : Sampler float json)
      (batch : List (Sample float))
      → All (λ (a : AgentBody). Quiet a.body) agents
      → (agent_parts float json agents name ts_ms (s, batch)).1 ≡ batch
  unfolding agent_parts
  Quiet-parts [] name ts_ms s batch q = refl
  Quiet-parts (a ∷ agents) name ts_ms s batch (qa, q) =
      let (s', batch') = collect_agent_tick float json a name ts_ms (s, batch) in
      Quiet-parts agents name ts_ms s' batch' q ∙ Quiet-part a name ts_ms s batch qa

  -- A tick in which neither engine document arrives, and each exporter is out of reach or says that its source is
  -- down, stores nothing: an outage is a gap and never a zero.
  pub tick-gap :
      (reason why : Text) (agents : List AgentBody) (name : Text) (ts_ms : ℕ)
      (s : Sampler float json)
      → All (λ (a : AgentBody). Quiet a.body) agents
      → (tick float json (failed reason) (failed why) agents name ts_ms s).1 ≡ []
  unfolding tick metrics_part snapshot_part gate_optional_features
  tick-gap reason why agents name ts_ms s q = Quiet-parts agents name ts_ms _ [] q
