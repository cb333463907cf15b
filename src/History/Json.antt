-- ===== src/History/Json.antt =====
-- `serde_json::Value` as an interface: what the sampler asks of a parsed document.
use muser_console.Base.{ℕ, Text, List, Option}
use muser_console.Float.{Float}

pub record Json (float : Float) : Type 1 where
  pub Value : Type 0
  -- `value.get(key)`, which only an object answers
  pub get : Value → Text → Option Value
  pub as_array : Value → Option (List Value)
  pub as_str : Value → Option Text
  pub as_f64 : Value → Option float.F64
  pub as_u64 : Value → Option ℕ
  -- `ToString`
  pub render : Value → Text
