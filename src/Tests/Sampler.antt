-- ===== src/Tests/Sampler.antt =====
-- The sampler at concrete inputs.
use muser_console.Base.{
  true, false, Text, codes, split, length, List, [], ◌∷◌, ◌++◌, some, All, ◌≡◌, ◌⊎◌, refl,
}
use muser_console.Catalog.Source
use muser_console.Catalog.Honesty.{measured, as_str, from_tag}
use muser_console.History.Table.{Sample}
use muser_console.History.Prom.{parse}
use muser_console.History.Sampler.Health.{Outcome, note_all, new_health, ok, err}
use muser_console.History.Sampler.Health.Laws.{
  Alternates, is_down, was_down, line_for, note_all-logs,
}
use muser_console.History.Sampler.Engine.{
  new_carry, collect_snapshot, honesty_for, closest_tag, dflash_configured, json_at, is_extension,
}
use muser_console.History.Sampler.Engine.Laws.{Told}
use muser_console.History.Sampler.Engine.Snapshot.{
  Tagged, Closest, collect_snapshot-Told, honesty_for_sound,
}
use muser_console.History.Sampler.Agents.{collect_agent}
use muser_console.History.Sampler.Agents
use muser_console.History.Sampler.Agents.Laws.{FromAgent, collect_agent-told}
use muser_console.History.Sampler.Tick.{got, failed, AgentBody, new_sampler, tick, Sampler}
use muser_console.History.Sampler.Tick.Laws.{Sound, tick-Sound, tick-gap}
use muser_console.Tests.Data.{whole, tree, Tree, str, num, arr, obj, nil, cons, end, field}

abbrev metrics_text : Text
metrics_text = codes "muser_queue_depth 3\n"

abbrev document : Tree
document = obj (
    field (codes "_honesty")
      (obj (
        field (codes "wire") (str (codes "measured"))
          (field (codes "specdec") (str (codes "mock")) end)))
      (field (codes "transfers") (arr (cons (obj (field (codes "bytes_sent") (num 5) end)) nil))
        end))

abbrev agent_text : Text
agent_text = codes "muser_gpu_power_watts{gpu=\"0\"} 12\n"

abbrev agents : List AgentBody
agents = record { name = codes "g0"; body = got agent_text } ∷ []

abbrev fresh : Sampler whole tree
fresh = new_sampler whole tree

abbrev failures : List Outcome
failures = err (codes "refused") ∷ (err (codes "timed out") ∷ [])

note_all-logs_example :
    ((note_all new_health (failures ++ ok ∷ [])).1
      ≡ ((note_all new_health failures).1 ++ line_for (was_down new_health failures) ok))
    × Alternates (is_down new_health) (note_all new_health (failures ++ ok ∷ [])).1
note_all-logs_example = note_all-logs new_health failures ok

collect_snapshot-Told_example :
    All
      (λ (s : Sample whole).
        Told whole Source.snapshot s × Tagged whole tree document (new_carry whole) s)
      (collect_snapshot whole tree document (codes "gx") 1000 (new_carry whole) []).1
collect_snapshot-Told_example =
    collect_snapshot-Told whole tree document (codes "gx") 1000 (new_carry whole)

wire_measured : honesty_for whole tree document (codes "wire.requests_per_s") ≡ some measured
unfolding honesty_for closest_tag from_tag
wire_measured = refl

honesty_for_sound_example :
    ((is_extension whole tree (split (codes "wire.requests_per_s") 46) ≡ true)
      × (measured ≡ measured))
    ⊎ ((sidecar : Tree) × (tree.get document (codes "_honesty") ≡ some sidecar)
        × Closest whole tree sidecar
            (split (codes "wire.requests_per_s") 46)
            (length (split (codes "wire.requests_per_s") 46))
            (as_str measured))
honesty_for_sound_example =
    honesty_for_sound whole tree document (codes "wire.requests_per_s") measured wire_measured

collect_agent-told_example :
    (added : List (Sample whole)) × ((collect_agent whole agent_text (codes "gx") 1000 []).1
      ≡ ([] ++ added))
    × All (FromAgent whole) added
    × (Agents.is_down whole (parse whole agent_text) ≡ true → added ≡ [])
collect_agent-told_example = collect_agent-told whole agent_text (codes "gx") 1000 []

tick-Sound_example :
    All
      (Sound whole tree)
      (tick whole tree (got metrics_text) (got document) agents (codes "gx") 1000 fresh).1
tick-Sound_example =
    tick-Sound whole tree (got metrics_text) (got document) agents (codes "gx") 1000 fresh

not_configured : dflash_configured whole tree (some document) ≡ false
unfolding json_at
not_configured = refl

tick-gap_example :
    (tick whole tree
      (failed (codes "refused"))
      (failed (codes "refused"))
      (record { name = codes "g0"; body = failed (codes "timed out") } ∷ [])
      (codes "gx")
      1000
      fresh).1
    ≡ []
tick-gap_example =
    tick-gap whole tree (codes "refused") (codes "refused")
      (record { name = codes "g0"; body = failed (codes "timed out") } ∷ []) (codes "gx") 1000 fresh
      (tt, tt)
