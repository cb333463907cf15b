-- ===== src/Routes/Reach.antt =====
-- What a valid configuration of crates/console-server/src/config.rs gives the handlers of
-- crates/console-server/src/routes.rs.
use muser_console.Base.{
  true, false, Text, codes, text_eq, text_eq_refl, List, [], ◌∷◌, ◌++◌, find, All, Any, some, ◌≡◌,
  refl, ap, subst, inl, inr,
}
use muser_console.Config.Types.{Config, Instance, instance_named}
use muser_console.Config.Entries.{Host}
use muser_console.Config.Entries.Laws.{IsInstance}
use muser_console.Config.Url.Laws.{valid_name-Lacks}
use muser_console.Config.Parse.Loops.{Pairwise, Apart}
use muser_console.Config.Parse.Laws.{IsValid}
use muser_console.Routes.Origin.Laws.{split_instance_iff}
use muser_console.Routes.Proxied.{resolve}

-- the instance is one of the list
abbrev pub IsOneOf : Instance → List Instance → Type 0
IsOneOf i = Any (λ j. j ≡ i)

Apart-name :
    (i : Instance) (x : Instance) (xs : List Instance)
    → All (Apart x) xs
    → IsOneOf i xs
    → text_eq x.name i.name ≡ false
Apart-name i x [] h m = absurd m
Apart-name i x (y ∷ ys) (hy, h) (inl e) =
    subst (λ (j : Instance). text_eq x.name j.name ≡ false) e hy
Apart-name i x (y ∷ ys) (hy, h) (inr m) = Apart-name i x ys h m

found_by_name :
    (i : Instance) (xs : List Instance)
    → Pairwise Apart xs
    → IsOneOf i xs
    → find (λ (j : Instance). text_eq j.name i.name) xs ≡ some i
found_by_name i [] h m = absurd m
found_by_name i (x ∷ xs) (hx, h) (inl e) =
    let hit : text_eq x.name i.name ≡ true =
      subst (λ (j : Instance). text_eq x.name j.name ≡ true) e (text_eq_refl x.name) in
    rw (find, hit) (ap some e)
found_by_name i (x ∷ xs) (hx, h) (inr m) =
    rw (find, Apart-name i x xs hx m) (found_by_name i xs h m)

named_validly :
    (host : Host) (i : Instance) (xs : List Instance)
    → All (IsInstance host) xs
    → IsOneOf i xs
    → IsInstance host i
named_validly host i [] h m = absurd m
named_validly host i (x ∷ xs) (hx, h) (inl e) = subst (IsInstance host) e hx
named_validly host i (x ∷ xs) (hx, h) (inr m) = named_validly host i xs h m

-- Under a valid configuration every instance is reached below `/i/` and its own name, whatever the rest of
-- the path, and no other instance is.
pub IsValid-resolve :
    (host : Host) (c : Config) (i : Instance) (behind : Text)
    → IsValid host c
    → IsOneOf i c.instances
    → resolve c (codes "/i/" ++ (i.name ++ b'/' ∷ behind)) ≡ some (i, b'/' ∷ behind)
unfolding resolve
IsValid-resolve host c i behind (_, (_, _, _, valid, apart, _, _)) m =
    let (name, _, _, _, _) = named_validly host i c.instances valid m in
    let split =
      (split_instance_iff (codes "/i/" ++ (i.name ++ b'/' ∷ behind)) i.name (b'/' ∷ behind)).1
        (behind, refl, refl, valid_name-Lacks i.name name) in
    let named : instance_named c i.name ≡ some i = found_by_name i c.instances apart m in
    rw (resolve, split, named) refl
