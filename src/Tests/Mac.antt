-- ===== src/Tests/Mac.antt =====
-- The mac exporter at concrete inputs.
use muser_console.Base.{ℕ, some, Bool, true, Text, codes, [], ◌∷◌, ◌++◌, none, ◌≡◌, refl}
use muser_console.History.Prom.{lines, filter_map}
use muser_console.Exporter.Mac.Parse.{
  package_labels, cpu_labels, gpu_labels, parse_power_line, parse_powermetrics,
}
use muser_console.Exporter.Mac.Parse.Laws.{first_of, parse_powermetrics-first}
use muser_console.Exporter.Mac.Scrape.{Served, Scrape, Outcome, sampled, Exporter, scrape}
use muser_console.Exporter.Mac.Scrape.Laws.{IsSourced, IsTruthful, delivered, scrape-IsTruthful}
use muser_console.Exporter.Mac.Render
use muser_console.Tests.Gx10.{zero_or_more}
use muser_console.Tests.Data.{whole}

abbrev output : Text
output = codes "CPU Power: 12 W" ++ (10 ∷ (codes "Package Power: 2000 mW" ++ (10 ∷ [])))

parse_powermetrics-first_example :
    let powers = filter_map (parse_power_line whole) (lines output) in
    let reading = parse_powermetrics whole output in
    (reading.package_power ≡ first_of whole package_labels powers)
    × (reading.cpu ≡ first_of whole cpu_labels powers)
    × (reading.gpu ≡ first_of whole gpu_labels powers)
parse_powermetrics-first_example = parse_powermetrics-first whole output

abbrev idle : Exporter whole
idle = record { max_age = 500; cached = none; last_up = none; logged = 0; log = [] }

abbrev answer : Outcome whole
answer = sampled (record { text = output; completed_unix_s = none; completed_at = 30 })

scrape-IsTruthful_example :
    let (after, result) = scrape whole idle idle 10 11 12 40 answer in
    IsSourced whole (delivered whole answer []) after.cached
    × IsTruthful whole (delivered whole answer []) 500 answer 11 12 40 result
scrape-IsTruthful_example =
    scrape-IsTruthful whole idle idle [] 10 11 12 40 500 answer refl refl tt tt

abbrev served : Served zero_or_more
served = record {
  reading = record {
    package_power = none;
    cpu = some (record { watts = true; source_label = codes "CPU \"Power\"" });
    gpu = none;
  };
  completed_unix_s = some true;
  age = 1;
}

abbrev result : Scrape zero_or_more
result = record { up = true; duration = 3; served = some served; failure = none }

abbrev some_seconds : ℕ → Bool
some_seconds n = true
