-- ===== src/Auth/Compare.antt =====
-- `constant_time_eq` of crates/console-server/src/auth.rs. A slice is a list of byte values.
use Prim.Native.Nat.{bit_or, bit_xor}
use native.Mathlib.Numerals.{add-one}
use muser_console.Base.{
  ℕ, zero, suc, ◌+◌, max, Bool, true, ◌==◌, ==_iff, List, [], ◌∷◌, length, ◌≡◌, ◌↔◌, refl, subst,
  arith,
}
use muser_console.Base.Bits.{bit_xor-zero_iff, bit_or-zero_iff}

-- `slice.get(index).copied().unwrap_or(0)`
abbrev byte_at : List ℕ → ℕ → ℕ
byte_at [] i = 0
byte_at (x ∷ xs) zero = x
byte_at (x ∷ xs) (suc i) = byte_at xs i

-- The loop: `rounds` rounds from `index`, with the difference found so far.
unfoldable pub compare_from : ℕ → ℕ → List ℕ → List ℕ → ℕ → ℕ
compare_from zero index left right difference = difference
compare_from (suc rounds) index left right difference =
    compare_from rounds (index + 1) left right
      (bit_or difference (bit_xor (byte_at left index) (byte_at right index)))

unfoldable pub constant_time_eq : List ℕ → List ℕ → Bool
unfolding compare_from
constant_time_eq left right =
    let start = bit_xor (length left) (length right) in
    compare_from (max (length left) (length right)) 0 left right start == 0

-- the bytes agree at each of the `rounds` positions from `index`
Agree : ℕ → ℕ → List ℕ → List ℕ → Type 0
Agree zero index left right = Unit
Agree (suc rounds) index left right =
    (byte_at left index ≡ byte_at right index) × Agree rounds (suc index) left right

compare_from-zero :
    (rounds index : ℕ) (left right : List ℕ) (difference : ℕ)
    → compare_from rounds index left right difference ≡ 0
    → (difference ≡ 0) × Agree rounds index left right
unfolding compare_from Agree
compare_from-zero zero index left right d h = (h, tt)
compare_from-zero (suc rounds) index left right d h =
    let x = bit_xor (byte_at left index) (byte_at right index) in
    let (p, q) = compare_from-zero rounds (index + 1) left right (bit_or d x) h in
    let (a, b) = (bit_or-zero_iff d x).0 p in
    (a, ((bit_xor-zero_iff (byte_at left index) (byte_at right index)).0 b, rw add-one at q))

compare_from_self :
    (rounds index : ℕ) (s : List ℕ) (d : ℕ) → d ≡ 0 → compare_from rounds index s s d ≡ 0
unfolding compare_from
compare_from_self zero index s d h = h
compare_from_self (suc rounds) index s d h =
    let x = bit_xor (byte_at s index) (byte_at s index) in
    compare_from_self rounds (index + 1) s (bit_or d x)
      ((bit_or-zero_iff d x).1 (h, (bit_xor-zero_iff (byte_at s index) (byte_at s index)).1 refl))

Agree-tail :
    (rounds index x y : ℕ) (xs ys : List ℕ)
    → Agree rounds (suc index) (x ∷ xs) (y ∷ ys)
    → Agree rounds index xs ys
unfolding Agree
Agree-tail zero index x y xs ys h = tt
Agree-tail (suc rounds) index x y xs ys (e, h) = (e, Agree-tail rounds (suc index) x y xs ys h)

eq_of_Agree : (s t : List ℕ) → length s ≡ length t → Agree (length s) 0 s t → s ≡ t
unfolding Agree
eq_of_Agree [] [] l h = refl
eq_of_Agree [] (y ∷ ys) l h = absurd (omega arith)
eq_of_Agree (x ∷ xs) [] l h = absurd (omega arith)
eq_of_Agree (x ∷ xs) (y ∷ ys) l (e, h) =
    cc (e, eq_of_Agree xs ys (omega arith) (Agree-tail (length xs) 0 x y xs ys h))

-- The comparison accepts if and only if the two slices are equal, whatever their lengths: the padding of
-- the shorter one by zeros never makes it pass.
pub constant_time_eq_iff : (s t : List ℕ) → (constant_time_eq s t ≡ true) ↔ (s ≡ t)
unfolding constant_time_eq
constant_time_eq_iff s t = (forward, λ e. rw (← e) backward)
  where
    forward : constant_time_eq s t ≡ true → s ≡ t
    forward h =
        let (p, q) = compare_from-zero (max (length s) (length t)) 0 s t _ ((==_iff _ 0).0 h) in
        let l : length s ≡ length t = (bit_xor-zero_iff (length s) (length t)).0 p in
        eq_of_Agree s t l (subst (λ n. Agree n 0 s t) (omega arith) q)

    backward : constant_time_eq s s ≡ true
    backward = (==_iff _ 0).1 (
        compare_from_self (max (length s) (length s)) 0 s _
          ((bit_xor-zero_iff (length s) (length s)).1 refl))
