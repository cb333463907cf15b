-- ===== src/History/Bucket/Laws.antt =====
-- What the buckets of crates/console-server/src/history/store.rs hold.
use native.Mathlib.Nat.{le-div_iff_mul-le, div-mul-le_self}
use muser_console.Base.{
  ℕ, zero, suc, ◌/◌, ◌≤◌, ◌<◌, Bool, true, false, ◌==◌, ==_iff, List, [], ◌∷◌, ◌++◌, append-nil,
  length, retain, find, Option, none, some, All, Bool-cases, ◌≡◌, refl, ap, ◌∙◌, inl, inr, arith,
  if◌then◌else◌,
}
use muser_console.Float.{Float}
use muser_console.Catalog.Kind.{Kind}
use muser_console.History.Bucket.{start_of, Point, take_bucket, aggregate, bucket_with, bucket}

start_of_mono : (w a b : ℕ) → a ≤ b → start_of w a ≤ start_of w b
start_of_mono zero a b h = omega arith
start_of_mono (suc w) a b h =
    let q : a / suc w ≤ b / suc w =
      (le-div_iff_mul-le {k = suc w} (omega arith)).1 (omega (arith, div-mul-le_self a (suc w))) in
    grind arith

module _ (float : Float) where
  -- the timestamps rise along the list
  abbrev pub Rising : List (Point float) → Type 0
  Rising [] = Unit
  Rising (p ∷ points) = All (λ (q : Point float). p.0 ≤ q.0) points × Rising points

  abbrev pub starts_at : ℕ → ℕ → Point float → Bool
  starts_at width_ms start p = start_of width_ms p.0 == start

  retain-append :
      (p : Point float → Bool) (xs ys : List (Point float))
      → retain p (xs ++ ys) ≡ retain p xs ++ retain p ys
  retain-append p [] ys = refl
  retain-append p (x ∷ xs) ys = elim (Bool-cases (p x)) [
    | inl e ↦ rw e (ap (◌∷◌ x) (retain-append p xs ys))
    | inr e ↦ rw e (retain-append p xs ys)
  ]

  -- none of the points opens a bucket up to `start`
  abbrev pub Beyond : ℕ → ℕ → List (Point float) → Type 0
  Beyond w start = All (λ (q : Point float). start < start_of w q.0)

  Beyond-of_first :
      (w start ts : ℕ) (points : List (Point float))
      → start < start_of w ts
      → All (λ (q : Point float). ts ≤ q.0) points
      → Beyond w start points
  Beyond-of_first w start ts [] h a = tt
  Beyond-of_first w start ts ((t, v) ∷ points) h (le, a) =
      (omega (arith, start_of_mono w ts t le), Beyond-of_first w start ts points h a)

  -- what the inner loop takes and leaves
  pub record Cut (w start : ℕ) (points : List (Point float)) (inside outside : List (Point float))
      : Type 0 where
    pub whole : points ≡ inside ++ outside
    within : All (λ q. starts_at w start q ≡ true) inside
    pub beyond : Beyond w start outside
    pub rising : Rising outside
    shorter : length outside ≤ length points

  pub Cut-points :
      (w start : ℕ) (points : List (Point float))
      → Rising points
      → All (λ (q : Point float). start ≤ start_of w q.0) points
      → Cut w start points (take_bucket float w start points).0 (take_bucket float w start points).1
  unfolding take_bucket
  Cut-points w start [] r a = record {
    whole = refl;
    within = tt;
    beyond = tt;
    rising = tt;
    shorter = omega arith;
  }
  Cut-points w start ((ts, v) ∷ points) (later, r) (le, a) =
      let rest = Cut-points w start points r a in
      elim (Bool-cases (start_of w ts == start)) [
        | inl e ↦
            rw (e, take_bucket)
              (record {
                whole = ap (◌∷◌ (ts, v)) rest.whole;
                within = (e, rest.within);
                beyond = rest.beyond;
                rising = rest.rising;
                shorter = omega (arith, rest.shorter);
              })
        | inr e ↦
            rw (e, take_bucket)
              (record {
                whole = refl;
                within = tt;
                beyond =
                    let first : start < start_of w ts = ground (arith, e, le) in
                    (first, Beyond-of_first w start ts points first later);
                rising = (later, r);
                shorter = omega arith;
              })
      ]

  none_at :
      (w b start : ℕ) (points : List (Point float))
      → b ≤ start
      → Beyond w start points
      → retain (starts_at w b) points ≡ []
  none_at w b start [] h a = refl
  none_at w b start ((t, v) ∷ points) h (l, a) =
      let no : starts_at w b (t, v) ≡ false = ground (arith, l, h) in
      rw no (none_at w b start points h a)

  retain_inside :
      (w b start : ℕ) (points : List (Point float))
      → All (λ q. starts_at w start q ≡ true) points
      → retain (starts_at w b) points ≡ (if start == b then points else [])
  retain_inside w b start [] a = ground arith
  retain_inside w b start ((t, v) ∷ points) (e, a) =
      ground (arith, e, retain_inside w b start points a)

  -- The bucket that a list of points fills by itself: none if there are no points.
  abbrev pub filled : ℕ → Kind → List (Point float) → Option (Point float)
  filled start kind [] = none
  filled start kind (p ∷ points) = some (start, aggregate float kind p points)

  pub mono-All :
      (w ts : ℕ) (points : List (Point float))
      → All (λ (q : Point float). ts ≤ q.0) points
      → All (λ (q : Point float). start_of w ts ≤ start_of w q.0) points
  mono-All w ts [] a = tt
  mono-All w ts ((t, v) ∷ points) (le, a) = (start_of_mono w ts t le, mono-All w ts points a)

  bucket_with-find :
      (fuel : ℕ) (points : List (Point float)) (w : ℕ) (kind : Kind) (b : ℕ)
      → length points ≤ fuel
      → Rising points
      → find (λ (q : Point float). q.0 == b) (bucket_with float fuel points w kind)
        ≡ filled b kind (retain (starts_at w b) points)
  unfolding bucket_with
  bucket_with-find zero [] w kind b h r = refl
  bucket_with-find zero (p ∷ points) w kind b h r = absurd (omega arith)
  bucket_with-find (suc fuel) [] w kind b h r = refl
  bucket_with-find (suc fuel) ((ts, v) ∷ points) w kind b h (later, r) =
      let start = start_of w ts in
      let inside = (take_bucket float w start points).0 in
      let outside = (take_bucket float w start points).1 in
      let c = Cut-points w start points r (mono-All w ts points later) in
      let ih = bucket_with-find fuel outside w kind b (omega (arith, c.shorter)) c.rising in
      let split : retain (starts_at w b) points
          ≡ (if start == b then inside else []) ++ retain (starts_at w b) outside =
        ap (retain (starts_at w b)) c.whole
        ∙ retain-append (starts_at w b) inside outside
        ∙ ap (λ x. x ++ retain (starts_at w b) outside) (retain_inside w b start inside c.within) in
      elim (Bool-cases (start == b)) [
        | inl same ↦
            let e : start ≡ b = (==_iff start b).0 same in
            rw
              (same, split, same, none_at w b start outside (omega (arith, e)) c.beyond, append-nil)
              (ap (λ x. some (x, aggregate float kind (ts, v) inside)) e)
        | inr other ↦ rw (other, split, other) ih
      ]

  -- For points in the order of time, the answer has a point at `b` if and only if a point lies in the
  -- bucket that starts at `b`, and its value is then the aggregate of exactly those points, in their
  -- order: an empty bucket yields no point, and nothing is carried from one bucket to another.
  pub bucket-find :
      (points : List (Point float)) (w : ℕ) (kind : Kind) (b : ℕ)
      → Rising points
      → find (λ (q : Point float). q.0 == b) (bucket float points w kind)
        ≡ filled b kind (retain (starts_at w b) points)
  unfolding bucket
  bucket-find points w kind b r = bucket_with-find (length points) points w kind b (omega arith) r

  -- every bucket opens after `low`
  abbrev Above : ℕ → List (Point float) → Type 0
  Above low = All (λ (q : Point float). low < q.0)

  -- the timestamps rise strictly
  abbrev pub Spaced : List (Point float) → Type 0
  Spaced [] = Unit
  Spaced (p ∷ points) = All (λ (q : Point float). p.0 < q.0) points × Spaced points

  bucket_with-Spaced :
      (fuel : ℕ) (points : List (Point float)) (w : ℕ) (kind : Kind) (low : ℕ)
      → Rising points
      → Beyond w low points
      → Above low (bucket_with float fuel points w kind)
        × Spaced (bucket_with float fuel points w kind)
  unfolding bucket_with
  bucket_with-Spaced zero points w kind low r a = (tt, tt)
  bucket_with-Spaced (suc fuel) [] w kind low r a = (tt, tt)
  bucket_with-Spaced (suc fuel) ((ts, v) ∷ points) w kind low (later, r) (l, a) =
      let start = start_of w ts in
      let c = Cut-points w start points r (mono-All w ts points later) in
      let (above, spaced) =
        bucket_with-Spaced fuel (take_bucket float w start points).1 w kind start c.rising
          c.beyond in
      ((l, lower start low _ (omega (arith, l)) above), (above, spaced))
    where
      lower :
          (start low : ℕ) (points : List (Point float))
          → low ≤ start
          → Above start points
          → Above low points
      lower start low [] h a = tt
      lower start low (q ∷ points) h (x, a) = (omega (arith, x, h), lower start low points h a)

  -- The points of the answer rise strictly in time: no bucket has two points.
  pub bucket-Spaced :
      (points : List (Point float)) (w : ℕ) (kind : Kind)
      → Rising points
      → Spaced (bucket float points w kind)
  unfolding bucket bucket_with
  bucket-Spaced [] w kind r = tt
  bucket-Spaced ((ts, v) ∷ points) w kind (later, r) =
      let start = start_of w ts in
      let c = Cut-points w start points r (mono-All w ts points later) in
      bucket_with-Spaced (length points) (take_bucket float w start points).1 w kind start c.rising
        c.beyond
