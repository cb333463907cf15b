-- ===== src/Base/Bits.antt =====
-- When the native `bit_xor` and `bit_or` are zero, from the recursion on digits that they mean.
use Prim.Native.Nat.{
  ℕ, zero, suc, ◌+◌, ◌-◌, ◌*◌, ◌/◌, ◌%◌, ◌≤◌, ◌<◌, max, min, digits, bit_and, bit_and-bitwise,
  differ, bit_or, bit_xor, bit_or-bitwise, bit_xor-bitwise,
}
use mathlib.Core.Path.{◌≡◌, refl, sym, ◌∙◌}
use mathlib.Core.Logic.{◌↔◌}
use native.Mathlib.Nat.{le_refl}
use native.Mathlib.Omega.{arith}

abbrev xor_digits : ℕ → ℕ → ℕ → ℕ
xor_digits n a b = digits (λ y. y) differ n a b

abbrev or_digits : ℕ → ℕ → ℕ → ℕ
or_digits n a b = digits (λ y. y) max n a b

differ-zero : (x y : ℕ) → differ x y ≡ 0 → x ≡ y
differ-zero zero y h = sym h
differ-zero (suc x) zero h = h
differ-zero (suc x) (suc y) h = omega (arith, differ-zero x y h)

differ_self : (x : ℕ) → differ x x ≡ 0
differ_self zero = refl
differ_self (suc x) = differ_self x

xor_digits-zero : (n a b : ℕ) → a ≤ n → xor_digits n a b ≡ 0 → a ≡ b
xor_digits-zero zero zero b h e = sym e
xor_digits-zero zero (suc a) b h e = absurd (omega arith)
xor_digits-zero (suc n) zero b h e = sym e
xor_digits-zero (suc n) (suc a) b h e = omega (
  arith,
  xor_digits-zero n (suc a / 2) (b / 2) (omega arith) (omega arith),
  differ-zero (suc a % 2) (b % 2) (omega arith),
)

xor_digits_self : (n a : ℕ) → a ≤ n → xor_digits n a a ≡ 0
xor_digits_self zero zero h = refl
xor_digits_self zero (suc a) h = absurd (omega arith)
xor_digits_self (suc n) zero h = refl
xor_digits_self (suc n) (suc a) h =
    omega (arith, xor_digits_self n (suc a / 2) (omega arith), differ_self (suc a % 2))

or_digits-zero : (n a b : ℕ) → a ≤ n → or_digits n a b ≡ 0 → (a ≡ 0) × (b ≡ 0)
or_digits-zero zero zero b h e = (refl, e)
or_digits-zero zero (suc a) b h e = absurd (omega arith)
or_digits-zero (suc n) zero b h e = (refl, e)
or_digits-zero (suc n) (suc a) b h e =
    let (p, q) = or_digits-zero n (suc a / 2) (b / 2) (omega arith) (omega arith) in
    (omega arith, omega arith)

pub bit_xor-zero_iff : (a b : ℕ) → (bit_xor a b ≡ 0) ↔ (a ≡ b)
bit_xor-zero_iff a b = (
  λ h. xor_digits-zero a a b (le_refl a) (sym (bit_xor-bitwise a b) ∙ h),
  λ e. rw (← e) (bit_xor-bitwise a a ∙ xor_digits_self a a (le_refl a)),
)

pub bit_or-zero_iff : (a b : ℕ) → (bit_or a b ≡ 0) ↔ ((a ≡ 0) × (b ≡ 0))
bit_or-zero_iff a b =
    (λ h. or_digits-zero a a b (le_refl a) (sym (bit_or-bitwise a b) ∙ h), λ (p, q). rw (p, q) refl)

-- The conjunction of `x` and `y`, `count` binary digits long.
conjoin : ℕ → ℕ → ℕ → ℕ
conjoin count x y = digits (λ _. zero) min count x y

conjoin-zero : (count y : ℕ) → conjoin count zero y ≡ zero
unfolding conjoin
conjoin-zero zero y = refl
conjoin-zero (suc count) y = refl

-- Further digits change nothing once `x` has run out.
conjoin_longer :
    (x : ℕ) (y count spare : ℕ) → x ≤ count → conjoin (spare + count) x y ≡ conjoin count x y
unfolding conjoin
conjoin_longer zero y count spare enough =
    conjoin-zero (spare + count) y ∙ sym (conjoin-zero count y)
conjoin_longer (suc x) y zero spare enough = absurd (omega arith)
conjoin_longer (suc x) y (suc count) spare enough =
    let next : spare + suc count ≡ suc (spare + count) = omega arith in
    let tail = conjoin_longer (suc x / 2) (y / 2) count spare (omega arith) in
    rw next (omega (arith, tail))

-- `bit_and` by its lowest digit
pub bit_and-digit : (x y : ℕ) → bit_and x y ≡ bit_and (x / 2) (y / 2) * 2 + min (x % 2) (y % 2)
unfolding conjoin
bit_and-digit zero y = omega (arith, bit_and-bitwise zero (y / 2), bit_and-bitwise zero y)
bit_and-digit (suc x) y =
    let half = suc x / 2 in
    let whole = conjoin_longer half (y / 2) half (x - half) (omega arith) in
    let sizes : (x - half) + half ≡ x = omega arith in
    omega (arith, rw sizes at whole, bit_and-bitwise half (y / 2), bit_and-bitwise (suc x) y)

bit_and-shift : (a m : ℕ) → bit_and a (m * 2) ≡ bit_and (a / 2) m * 2
bit_and-shift a m =
    let half : m * 2 / 2 ≡ m = omega arith in omega (arith, rw half at (bit_and-digit a (m * 2)))

bit_and-ones : (a m : ℕ) → bit_and a (m * 2 + 1) ≡ bit_and (a / 2) m * 2 + a % 2
bit_and-ones a m =
    let half : (m * 2 + 1) / 2 ≡ m = omega arith in
    omega (arith, rw half at (bit_and-digit a (m * 2 + 1)))

bit_and-zero : (n a : ℕ) → a ≤ n → bit_and a 0 ≡ 0
bit_and-zero n zero h = bit_and-bitwise 0 0
bit_and-zero zero (suc a) h = absurd (omega arith)
bit_and-zero (suc n) (suc a) h =
    omega (arith, bit_and-digit (suc a) 0, bit_and-zero n (suc a / 2) (omega arith))

bit_and_127 : (a : ℕ) → bit_and a 127 ≡ a % 128
bit_and_127 a = omega (
  arith,
  bit_and-ones a 63,
  bit_and-ones (a / 2) 31,
  bit_and-ones (a / 2 / 2) 15,
  bit_and-ones (a / 2 / 2 / 2) 7,
  bit_and-ones (a / 2 / 2 / 2 / 2) 3,
  bit_and-ones (a / 2 / 2 / 2 / 2 / 2) 1,
  bit_and-ones (a / 2 / 2 / 2 / 2 / 2 / 2) 0,
  bit_and-zero _ (a / 2 / 2 / 2 / 2 / 2 / 2 / 2) (le_refl _),
)

bit_and_1023 : (a : ℕ) → bit_and a 1023 ≡ a % 1024
bit_and_1023 a = omega (
  arith,
  bit_and-ones a 511,
  bit_and-ones (a / 2) 255,
  bit_and-ones (a / 2 / 2) 127,
  bit_and_127 (a / 2 / 2 / 2),
)

-- In sixteen bits, the mask of all but the nine lowest.
pub bit_and_0xfe00 : (a : ℕ) → a < 65536 → bit_and a 0xfe00 ≡ a / 512 * 512
bit_and_0xfe00 a h = omega (
  arith,
  bit_and-shift a 32512,
  bit_and-shift (a / 2) 16256,
  bit_and-shift (a / 2 / 2) 8128,
  bit_and-shift (a / 2 / 2 / 2) 4064,
  bit_and-shift (a / 2 / 2 / 2 / 2) 2032,
  bit_and-shift (a / 2 / 2 / 2 / 2 / 2) 1016,
  bit_and-shift (a / 2 / 2 / 2 / 2 / 2 / 2) 508,
  bit_and-shift (a / 2 / 2 / 2 / 2 / 2 / 2 / 2) 254,
  bit_and-shift (a / 2 / 2 / 2 / 2 / 2 / 2 / 2 / 2) 127,
  bit_and_127 (a / 2 / 2 / 2 / 2 / 2 / 2 / 2 / 2 / 2),
)

-- In sixteen bits, the mask of all but the six lowest.
pub bit_and_0xffc0 : (a : ℕ) → a < 65536 → bit_and a 0xffc0 ≡ a / 64 * 64
bit_and_0xffc0 a h = omega (
  arith,
  bit_and-shift a 32736,
  bit_and-shift (a / 2) 16368,
  bit_and-shift (a / 2 / 2) 8184,
  bit_and-shift (a / 2 / 2 / 2) 4092,
  bit_and-shift (a / 2 / 2 / 2 / 2) 2046,
  bit_and-shift (a / 2 / 2 / 2 / 2 / 2) 1023,
  bit_and_1023 (a / 2 / 2 / 2 / 2 / 2 / 2),
)
