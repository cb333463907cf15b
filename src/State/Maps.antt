-- ===== src/State/Maps.antt =====
-- `HashMap<String, V>` as a list of entries, for the operations that crates/console-server/src/state.rs
-- makes: `retain`, `insert`, `remove` and a search of the entries.
use muser_console.Base.{
  Bool, false, Text, text_eq, text_eq_iff, List, [], ◌∷◌, Option, none, some, count_if,
  if◌then◌else◌, ◌≡◌, refl, arith,
}

module _ {ℓ} {V : Type ℓ} where
  abbrev pub has_key : Text → Text × V → Bool
  has_key k (j, v) = text_eq j k

  abbrev pub map_remove : Text → List (Text × V) → List (Text × V)
  map_remove k [] = []
  map_remove k ((j, v) ∷ m) = if text_eq j k then map_remove k m else (j, v) ∷ map_remove k m

  abbrev pub map_insert : Text → V → List (Text × V) → List (Text × V)
  map_insert k v m = (k, v) ∷ map_remove k m

  -- `get(key).copied()`
  abbrev pub map_get : Text → List (Text × V) → Option V
  map_get k [] = none
  map_get k ((j, v) ∷ m) = if text_eq j k then some v else map_get k m

  -- how many entries have the key
  pub count_key-map_remove :
      (k : Text) (m : List (Text × V)) → count_if (has_key k) (map_remove k m) ≡ 0
  count_key-map_remove k [] = refl
  count_key-map_remove k ((j, v) ∷ m) = ground (arith, count_key-map_remove k m)

  pub count_key-map_remove_ne :
      (k l : Text) (m : List (Text × V))
      → text_eq k l ≡ false
      → count_if (has_key l) (map_remove k m) ≡ count_if (has_key l) m
  count_key-map_remove_ne k l [] h = refl
  count_key-map_remove_ne k l ((j, v) ∷ m) h =
      ground
        (arith, count_key-map_remove_ne k l m h, text_eq_iff j k, text_eq_iff j l, text_eq_iff k l)
