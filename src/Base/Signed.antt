-- ===== src/Base/Signed.antt =====
-- `i64` over the native numbers: its comparison, the checked operations that the program uses, and
-- `str::parse::<i64>`.
use muser_console.Base.Tests.{◌==◌, ltb, leb, if◌then◌else◌}
use muser_console.Base.Texts.{Text}
use Prim.Native.Nat.{ℕ, zero, suc, ◌+◌, ◌-◌, ◌*◌, ◌^◌}
use mathlib.Core.Bool.{Bool, true, false, ◌&&◌}
use mathlib.Core.List.{[], ◌∷◌}
use mathlib.Core.Option.{Option, none, some}

-- `negsuc n` is -1 - n
pub data ℤ : Type 0 where
  pos : ℕ → ℤ
  negsuc : ℕ → ℤ

-- `a < b`
abbrev pub lt : ℤ → ℤ → Bool
lt (pos a) (pos b) = ltb a b
lt (pos a) (negsuc b) = false
lt (negsuc a) (pos b) = true
lt (negsuc a) (negsuc b) = ltb b a

abbrev pub fits : ℤ → Bool
fits (pos a) = ltb a (2 ^ 63)
fits (negsuc a) = ltb a (2 ^ 63)

abbrev pub checked : ℤ → Option ℤ
checked a = if fits a then some a else none

-- the difference of two numbers
abbrev pub minus : ℕ → ℕ → ℤ
minus a b = if leb b a then pos (a - b) else negsuc (b - a - 1)

abbrev pub sub : ℤ → ℤ → ℤ
sub (pos a) (pos b) = minus a b
sub (pos a) (negsuc b) = pos (a + (b + 1))
sub (negsuc a) (pos b) = negsuc (a + b)
sub (negsuc a) (negsuc b) = minus b a

-- `checked_sub`
abbrev pub checked_sub : ℤ → ℤ → Option ℤ
checked_sub a b = checked (sub a b)

abbrev digits_from : ℕ → Text → Option ℕ
digits_from n [] = some n
digits_from n (c ∷ s) = if leb 48 c && leb c 57 then digits_from (n * 10 + (c - 48)) s else none

abbrev digits : Text → Option ℕ
digits [] = none
digits (c ∷ s) = digits_from 0 (c ∷ s)

abbrev negate : ℕ → ℤ
negate zero = pos 0
negate (suc n) = negsuc n

-- `str::parse::<i64>().ok()`: a sign and decimal digits, in range
abbrev pub parse_integer : Text → Option ℤ
parse_integer [] = none
parse_integer (c ∷ s) =
    if c == 45
    then elim (digits s) [ none ↦ none | some n ↦ checked (negate n) ]
    else elim (digits (if c == 43 then s else c ∷ s)) [ none ↦ none | some n ↦ checked (pos n) ]
