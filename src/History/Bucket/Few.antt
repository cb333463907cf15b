-- ===== src/History/Bucket/Few.antt =====
-- How many points a range read of crates/console-server/src/history/store.rs can return.
use native.Mathlib.Nat.{le-div_iff_mul-le, div-mul-le_self, div-add-mod', mod-lt, mul-le-mul_right}
use muser_console.Base.{
  ℕ, zero, suc, ◌+◌, ◌-◌, ◌*◌, ◌/◌, ◌≤◌, ◌<◌, ltb, Text, List, [], ◌∷◌, ◌++◌, length, map, All,
  Bool-cases, subst, inl, inr, arith,
}
use muser_console.Float.{Float}
use muser_console.Catalog.Kind.{Kind}
use muser_console.History.Table.{Row, in_range, select_range}
use muser_console.History.Bucket.{start_of, Point, point_of, take_bucket, bucket_with, bucket}
use muser_console.History.Bucket.Laws.{Rising, Beyond, Cut-points, mono-All}

-- a multiple above another is a whole width above it
apart : (a b w : ℕ) → a * w < b * w → a * w + w ≤ b * w
apart a b w h = elim (Bool-cases (ltb a b)) [
  | inl e ↦ let lt : suc a ≤ b = ground (arith, e) in grind (arith, mul-le-mul_right w lt)
  | inr e ↦ let le : b ≤ a = ground (arith, e) in absurd (omega (arith, h, mul-le-mul_right w le))
]

start-le : (w ts : ℕ) → start_of w ts ≤ ts
start-le zero ts = omega arith
start-le (suc w) ts = div-mul-le_self ts (suc w)

start-near : (w ts : ℕ) → ts < start_of (suc w) ts + suc w
start-near w ts = omega (arith, div-add-mod' ts (suc w), mod-lt ts {m = suc w} (omega arith))

-- so many whole widths fit between the first bucket and the end of the range
widths :
    (n w start from to : ℕ)
    → 0 < w
    → n * w + start ≤ to
    → from < start + w
    → suc n ≤ (to - from) / w + 2
widths zero w start from to h fits near = omega arith
widths (suc n) w start from to h fits near =
    let room : n * w ≤ to - from = grind (arith, fits, near) in
    let fit : n ≤ (to - from) / w = (le-div_iff_mul-le h).1 room in omega (arith, fit)

module _ (float : Float) where
  -- the points lie in the range
  abbrev pub Inside : ℕ → ℕ → List (Point float) → Type 0
  Inside from to = All (λ (q : Point float). (from ≤ q.0) × (q.0 ≤ to))

  pub Inside-select :
      (name series : Text) (from to : ℕ) (rows : List (Row float))
      → Inside from to (map (point_of float) (select_range float name series from to rows))
  Inside-select name series from to [] = tt
  Inside-select name series from to (r ∷ rows) =
      let rest = Inside-select name series from to rows in
      elim (Bool-cases (in_range float name series from to r)) [
        | inl e ↦ rw e ((ground (arith, e), ground (arith, e)), rest)
        | inr e ↦ rw e rest
      ]

  Inside-behind :
      (from to : ℕ) (inside outside : List (Point float))
      → Inside from to (inside ++ outside)
      → Inside from to outside
  Inside-behind from to [] outside h = h
  Inside-behind from to (q ∷ inside) outside (_, h) = Inside-behind from to inside outside h

  -- each bucket takes a whole width of the range
  bucket_with-few :
      (fuel : ℕ) (points : List (Point float)) (w : ℕ) (kind : Kind) (k from to : ℕ)
      → Rising float points
      → Beyond float w (k * w) points
      → Inside from to points
      → k * w ≤ to
      → length (bucket_with float fuel points w kind) * w + k * w ≤ to
  unfolding bucket_with
  bucket_with-few zero points w kind k from to r a i h = omega (arith, h)
  bucket_with-few (suc fuel) [] w kind k from to r a i h = omega (arith, h)
  bucket_with-few (suc fuel) ((ts, v) ∷ points) w kind k from to (later, r) (l, a) ((_, low), i) h =
      let c = Cut-points float w (start_of w ts) points r (mono-All float w ts points later) in
      let step = apart k (ts / w) w l in
      let outside = (take_bucket float w (start_of w ts) points).1 in
      let within =
        Inside-behind from to (take_bucket float w (start_of w ts) points).0 outside
          (subst (Inside from to) c.whole i) in
      let rest =
        bucket_with-few fuel outside w kind (ts / w) from to c.rising c.beyond within
          (omega (arith, start-le w ts, low)) in
      grind (arith, rest, step)

  -- A range read in buckets of a width has at most two points more than the range has whole widths.
  pub bucket-few :
      (points : List (Point float)) (w : ℕ) (kind : Kind) (from to : ℕ)
      → Rising float points
      → Inside from to points
      → 0 < w
      → length (bucket float points w kind) ≤ (to - from) / w + 2
  unfolding bucket bucket_with
  bucket-few [] w kind from to r i h = omega arith
  bucket-few (p ∷ points) zero kind from to r i h = absurd (omega (arith, h))
  bucket-few ((ts, v) ∷ points) (suc w) kind from to (later, r) ((high, low), i) h =
      let c =
        Cut-points float (suc w) (start_of (suc w) ts) points r
          (mono-All float (suc w) ts points later) in
      let outside = (take_bucket float (suc w) (start_of (suc w) ts) points).1 in
      let within =
        Inside-behind from to (take_bucket float (suc w) (start_of (suc w) ts) points).0 outside
          (subst (Inside from to) c.whole i) in
      let rest =
        bucket_with-few (length points) outside (suc w) kind (ts / suc w) from to c.rising c.beyond
          within (omega (arith, start-le (suc w) ts, low)) in
      widths _ (suc w) (ts / suc w * suc w) from to (omega arith) rest
        (omega (arith, start-near w ts, high))
