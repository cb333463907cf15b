-- ===== src/Tests/Gx10.antt =====
-- The gx10 exporter at a concrete document.
use muser_console.Base.{
  Bool, true, false, not, text_eq, Text, codes, [], ◌∷◌, ◌++◌, some, none, ◌≡◌, refl,
}
use muser_console.Float.{Float, Decimal}
use muser_console.History.Prom.{parse}
use muser_console.Exporter.Mac.Reads.{is_number}
use muser_console.Exporter.Gx10.{DeviceSample, decimal, render}
use muser_console.Exporter.Gx10.Measured.{agent_sample, measurements}
use muser_console.Exporter.Gx10.Round.{parse-render}

-- two numbers, of which only zero prints as `0`
abbrev pub zero_or_more : Float
zero_or_more = record {
  F64 = Bool;
  literal = λ (d : Decimal). true;
  of_ℕ = λ n. not (text_eq (decimal n) (codes "0"));
  neg_zero = false;
  add = λ a b. a;
  mul = λ a b. a;
  div = λ a b. a;
  gt = λ a b. a;
  eq = λ a b. a;
  is_finite = λ a. true;
  parse = λ t. some (not (text_eq t (codes "0")));
}

abbrev pub show : Bool → Text
show true = codes "1"
show false = codes "0"

pub shown :
    (x : Bool)
    → zero_or_more.is_finite x ≡ true
    → (is_number (show x) ≡ true) × (zero_or_more.parse (show x) ≡ some x)
shown true h = (refl, refl)
shown false h = (refl, refl)

abbrev device : DeviceSample zero_or_more
device = record {
  index = 10;
  uuid = none;
  name = some (codes "a \"b\"" ++ 10 ∷ []);
  utilization_ratio = some false;
  power_watts = some true;
  temperature_celsius = none;
  memory_used_bytes = some 1024;
  memory_total_bytes = none;
}

parse-render_example :
    (parse zero_or_more (render zero_or_more show (some (device ∷ [])) true)).samples
    ≡ agent_sample zero_or_more (codes "muser_agent_up") (zero_or_more.of_ℕ 1)
      ∷ (agent_sample zero_or_more (codes "muser_agent_scrape_duration_seconds") true
          ∷ measurements zero_or_more (device ∷ []))
parse-render_example =
    parse-render zero_or_more show (some (device ∷ [])) true shown (λ n. refl) refl
