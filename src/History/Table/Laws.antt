-- ===== src/History/Table/Laws.antt =====
-- What the statements on the table of crates/console-server/src/history/store.rs keep and change.
use muser_console.Base.{
  ℕ, Bool, true, false, not, ◌==◌, ==_iff, leb, Text, text_eq, text_eq_iff, text_eq→eq, and_split,
  List, [], ◌∷◌, retain, find, Option, none, some, All, Bool-cases, ◌≡◌, ◌↔◌, ◌∙◌, refl, sym, inl,
  inr, arith, if◌then◌else◌,
}
use muser_console.Float.{Float}
use muser_console.History.Table.{Row, same_series, has_key, place, insert_or_replace}

module _ (float : Float) where
  abbrev pub key_of : Row float → Row float → Bool
  key_of a b = has_key float a.instance_name a.series a.ts b

  -- the stored row under a primary key
  abbrev pub row_at : Text → Text → ℕ → List (Row float) → Option (Row float)
  row_at name series ts rows = find (has_key float name series ts) rows

  pub has_key_iff :
      (name series : Text) (ts : ℕ) (r : Row float)
      → (has_key float name series ts r ≡ true)
        ↔ ((r.instance_name ≡ name) × (r.series ≡ series) × (r.ts ≡ ts))
  has_key_iff name series ts r = (
    λ h.
        let (a, b) = and_split (same_series float name series r) (r.ts == ts) h in
        let (x, y) = and_split (text_eq r.instance_name name) (text_eq r.series series) a in
        (text_eq→eq r.instance_name name x, text_eq→eq r.series series y, (==_iff r.ts ts).0 b),
    λ (x, y, z).
        ground
          (arith, (text_eq_iff r.instance_name name).1 x, (text_eq_iff r.series series).1 y, z),
  )

  All-others :
      (row : Row float) (rows : List (Row float))
      → All (λ r. key_of row r ≡ false) (retain (λ r. not (key_of row r)) rows)
  All-others row [] = tt
  All-others row (r ∷ rows) = elim (Bool-cases (key_of row r)) [
    | inl e ↦ rw e (All-others row rows)
    | inr e ↦ rw e (e, All-others row rows)
  ]

  row_at-place :
      (name series : Text) (ts : ℕ) (row : Row float) (rows : List (Row float))
      → All (λ r. key_of row r ≡ false) rows
      → row_at name series ts (place float row rows)
        ≡ (if has_key float name series ts row then some row else row_at name series ts rows)
  row_at-place name series ts row [] n = refl
  row_at-place name series ts row (r ∷ rows) (n, ns) = elim (Bool-cases (leb row.ts r.ts)) [
    | inl e ↦ rw e
    | inr e ↦ elim (Bool-cases (has_key float name series ts row)) [
      | inr miss ↦ rw (e, miss) (ground (arith, miss, row_at-place name series ts row rows ns))
      | inl hit ↦ elim (Bool-cases (has_key float name series ts r)) [
        | inr other ↦ rw (e, hit, other) (row_at-place name series ts row rows ns ∙ rw hit)
        | inl clash ↦
            let (x, y, z) = (has_key_iff name series ts row).0 hit in
            let (x', y', z') = (has_key_iff name series ts r).0 clash in
            cc (
              n,
              (has_key_iff row.instance_name row.series row.ts r).1
                  (x' ∙ sym x, y' ∙ sym y, z' ∙ sym z),
            )
      ]
    ]
  ]

  row_at-retain_others :
      (name series : Text) (ts : ℕ) (row : Row float) (rows : List (Row float))
      → has_key float name series ts row ≡ false
      → row_at name series ts (retain (λ r. not (key_of row r)) rows) ≡ row_at name series ts rows
  row_at-retain_others name series ts row [] h = refl
  row_at-retain_others name series ts row (r ∷ rows) h =
      let rest = row_at-retain_others name series ts row rows h in
      elim (Bool-cases (key_of row r)) [
        | inr keep ↦ elim (Bool-cases (has_key float name series ts r)) [
          | inl hit ↦ rw (keep, hit)
          | inr miss ↦ rw (keep, miss) rest
        ]
        | inl gone ↦ elim (Bool-cases (has_key float name series ts r)) [
          | inr other ↦ rw (gone, other) rest
          | inl clash ↦
              let (x, y, z) = (has_key_iff row.instance_name row.series row.ts r).0 gone in
              let (x', y', z') = (has_key_iff name series ts r).0 clash in
              cc (h, (has_key_iff name series ts row).1 (sym x ∙ x', sym y ∙ y', sym z ∙ z'))
        ]
      ]

  -- An insert stores its row under its key and leaves what is stored under every other key.
  pub row_at-insert :
      (name series : Text) (ts : ℕ) (row : Row float) (rows : List (Row float))
      → row_at name series ts (insert_or_replace float row rows)
        ≡ (if has_key float name series ts row then some row else row_at name series ts rows)
  unfolding insert_or_replace
  row_at-insert name series ts row rows = elim (Bool-cases (has_key float name series ts row)) [
    | inl hit ↦ row_at-place name series ts row _ (All-others row rows) ∙ rw hit
    | inr miss ↦
        row_at-place name series ts row _ (All-others row rows)
        ∙ rw miss (row_at-retain_others name series ts row rows miss)
  ]

  -- A deletion by a test that depends on the key leaves the rows that pass it, under their keys.
  pub row_at-retain :
      (p : Row float → Bool) (name series : Text) (ts : ℕ) (rows : List (Row float)) (b : Bool)
      → ((r : Row float) → has_key float name series ts r ≡ true → p r ≡ b)
      → row_at name series ts (retain p rows) ≡ (if b then row_at name series ts rows else none)
  row_at-retain p name series ts [] true f = refl
  row_at-retain p name series ts [] false f = refl
  row_at-retain p name series ts (r ∷ rows) b f =
      let rest = row_at-retain p name series ts rows b f in
      elim (Bool-cases (has_key float name series ts r)) [
        | inl hit ↦ keyed b (f r hit) hit rest
        | inr miss ↦ elim (Bool-cases (p r)) [
          | inl kept ↦ rw (kept, miss) rest
          | inr gone ↦ rw (gone, miss) rest
        ]
      ]
    where
      keyed :
          (b : Bool)
          → p r ≡ b
          → has_key float name series ts r ≡ true
          → row_at name series ts (retain p rows) ≡ (if b then row_at name series ts rows else none)
          → row_at name series ts (retain p (r ∷ rows))
            ≡ (if b then row_at name series ts (r ∷ rows) else none)
      keyed true e hit rest = rw (e, hit)
      keyed false e hit rest = rw e rest
