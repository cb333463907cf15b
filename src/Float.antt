-- ===== src/Float.antt =====
-- `f64` as an interface: the language has no model of it here, so every definition that handles a
-- measurement takes the type and the operations that the source applies to it as a parameter.
use muser_console.Base.{ℕ, Bool, Text, Option}

-- A decimal literal of the source: `digits` times ten to the power of minus `exponent`.
pub record Decimal : Type 0 where
  pub digits : ℕ
  pub exponent : ℕ

pub record Float : Type 1 where
  pub F64 : Type 0
  pub literal : Decimal → F64
  -- `n as f64`
  pub of_ℕ : ℕ → F64
  -- `-0.0`, from which `Iterator::sum` starts
  pub neg_zero : F64
  pub add : F64 → F64 → F64
  pub mul : F64 → F64 → F64
  pub div : F64 → F64 → F64
  -- `a > b` and `a == b`
  pub gt : F64 → F64 → Bool
  pub eq : F64 → F64 → Bool
  pub is_finite : F64 → Bool
  -- `str::parse::<f64>().ok()`
  pub parse : Text → Option F64
