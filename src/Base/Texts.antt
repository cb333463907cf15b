-- ===== src/Base/Texts.antt =====
-- Texts as lists of characters (Unicode scalar values), their equality, and the pieces of `str`
-- that the program uses.
use Prim.Native.Char.{code}
use Prim.Native.Nat.{ℕ, ◌+◌}
use Prim.Native.String.{String}
use mathlib.Core.Path.{◌≡◌, refl, ap₂}
use mathlib.Core.Logic.{◌↔◌}
use mathlib.Core.Bool.{Bool, true, false, ◌&&◌, ◌||◌}
use mathlib.Core.List.{List, [], ◌∷◌, ◌++◌, reverse}
use mathlib.Core.Option.{Option, none, some}
use native.Mathlib.Omega.{arith}
use muser_console.Base.Tests.{◌==◌, ==_iff, leb, ltb, if◌then◌else◌, and_split}

abbrev pub Text : Type 0
Text = List ℕ

abbrev pub codes : String → Text
codes String.[] = []
codes (String.◌∷◌ c s) = code c ∷ codes s

-- `==` on strings
abbrev pub text_eq : Text → Text → Bool
text_eq [] [] = true
text_eq (x ∷ xs) (y ∷ ys) = x == y && text_eq xs ys
text_eq _ _ = false

pub text_eq_refl : (s : Text) → text_eq s s ≡ true
text_eq_refl [] = refl
text_eq_refl (x ∷ xs) = ground (arith, text_eq_refl xs)

pub text_eq→eq : (s t : Text) → text_eq s t ≡ true → s ≡ t
text_eq→eq [] [] h = refl
text_eq→eq (x ∷ xs) (y ∷ ys) h =
    let (a, b) = and_split (x == y) (text_eq xs ys) h in
    ap₂ ◌∷◌ ((==_iff x y).0 a) (text_eq→eq xs ys b)
text_eq→eq [] (y ∷ ys) h = cc
text_eq→eq (x ∷ xs) [] h = cc

pub text_eq_iff : (s t : Text) → (text_eq s t ≡ true) ↔ (s ≡ t)
text_eq_iff s t = (text_eq→eq s t, λ e. rw e (text_eq_refl t))

-- `str::starts_with` on a text
abbrev pub starts_with : Text → Text → Bool
starts_with s [] = true
starts_with [] (p ∷ ps) = false
starts_with (c ∷ s) (p ∷ ps) = c == p && starts_with s ps

-- `str::strip_prefix`
abbrev pub strip_prefix : Text → Text → Option Text
strip_prefix s [] = some s
strip_prefix [] (p ∷ ps) = none
strip_prefix (c ∷ s) (p ∷ ps) = if c == p then strip_prefix s ps else none

-- `str::split(sep)` for one character: always at least one piece.
abbrev pub split_with : ℕ → Text → Text → List Text
split_with sep [] cur = cur ∷ []
split_with sep (c ∷ s) cur = elim (c == sep) [
  | true ↦ cur ∷ split_with sep s []
  | false ↦ split_with sep s (cur ++ c ∷ [])
]

abbrev pub split : Text → ℕ → List Text
split s sep = split_with sep s []

-- `str::split_once(sep)`
abbrev pub split_once_with : ℕ → Text → Text → Option (Text × Text)
split_once_with sep [] before = none
split_once_with sep (c ∷ s) before = elim (c == sep) [
  | true ↦ some (before, s)
  | false ↦ split_once_with sep s (before ++ c ∷ [])
]

abbrev pub split_once : Text → ℕ → Option (Text × Text)
split_once s sep = split_once_with sep s []

-- `char::is_whitespace`: the characters with the Unicode property White_Space.
abbrev pub is_whitespace : ℕ → Bool
is_whitespace c =
    (leb 9 c && leb c 13)
    || c == 32
    || c == 0x85
    || c == 0xa0
    || c == 0x1680
    || (leb 0x2000 c && leb c 0x200a)
    || c == 0x2028
    || c == 0x2029
    || c == 0x202f
    || c == 0x205f
    || c == 0x3000

abbrev pub trim_start : Text → Text
trim_start [] = []
trim_start (c ∷ s) = if is_whitespace c then trim_start s else c ∷ s

-- `str::trim`
abbrev pub trim : Text → Text
trim s = reverse (trim_start (reverse (trim_start s)))

-- `str::len`: the number of bytes in UTF-8
abbrev pub byte_length : Text → ℕ
byte_length [] = 0
byte_length (c ∷ s) =
    (if ltb c 0x80 then 1 else if ltb c 0x800 then 2 else if ltb c 0x10000 then 3 else 4)
    + byte_length s
