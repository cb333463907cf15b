-- ===== src/Base/Cut.antt =====
-- What `strip_prefix` and `split_once` of `str` return, as equations on the text.
use mathlib.Core.Path.{◌≡◌, refl, sym, ap, ◌∙◌}
use mathlib.Core.Logic.{◌↔◌, ◌⊎◌, inl, inr}
use mathlib.Core.Bool.{false}
use mathlib.Core.Option.{some}
use mathlib.Core.List.{List, [], ◌∷◌, ◌++◌, append-nil, append_assoc}
use native.Mathlib.Omega.{arith}
use Prim.Native.Nat.{ℕ}
use muser_console.Base.Tests.{◌==◌, ==_iff, Bool-cases}
use muser_console.Base.Lists.{All}
use muser_console.Base.Texts.{Text, strip_prefix, split_with, split_once_with}

pub strip_prefix_iff : (s p r : Text) → (strip_prefix s p ≡ some r) ↔ (s ≡ p ++ r)
strip_prefix_iff s [] r = (λ h. cc h, λ e. ap some e)
strip_prefix_iff [] (p ∷ ps) r = (λ h. cc, λ e. cc)
strip_prefix_iff (c ∷ s) (p ∷ ps) r = elim (Bool-cases (c == p)) [
  | inl e ↦
      let same : c ≡ p = (==_iff c p).0 e in
      let (there, back) = strip_prefix_iff s ps r in
      (
        λ h. rw same (ap (◌∷◌ p) (there (rw (strip_prefix, e) at h))),
        λ k. rw (strip_prefix, e) (back (cc k)),
      )
  | inr e ↦ (
    λ h. cc (rw (strip_prefix, e) at h),
    λ k. let same : c ≡ p = cc k in cc ((==_iff c p).1 same, e),
  )
]

-- no character of the text is the separator
abbrev pub Lacks : ℕ → Text → Type 0
Lacks sep = All (λ c. (c == sep) ≡ false)

pub split_once-finds :
    (sep : ℕ) (name rest before : Text)
    → Lacks sep name
    → split_once_with sep (name ++ sep ∷ rest) before ≡ some (before ++ name, rest)
split_once-finds sep [] rest before h = ground (arith, append-nil before)
split_once-finds sep (c ∷ name) rest before (hc, h) =
    rw (split_once_with, hc)
      (split_once-finds sep name rest (before ++ c ∷ []) h
        ∙ ap (λ x. some (x, rest)) (append_assoc before (c ∷ []) name))

pub split_once-Lacks :
    (sep : ℕ) (s before a b : Text)
    → split_once_with sep s before ≡ some (a, b)
    → (name : Text) × (a ≡ before ++ name) × (s ≡ name ++ sep ∷ b) × Lacks sep name
split_once-Lacks sep [] before a b h = cc
split_once-Lacks sep (c ∷ s) before a b h = elim (Bool-cases (c == sep)) [
  | inl e ↦
      let x : some (before, s) ≡ some (a, b) = rw (split_once_with, e) at h in
      let c_sep : c ≡ sep = (==_iff c sep).0 e in
      let y : before ≡ a = cc x in
      let z : s ≡ b = cc x in ([], sym y ∙ sym (append-nil before), rw (c_sep, z) refl, tt)
  | inr e ↦
      let (name, p, q, l) =
        split_once-Lacks sep s (before ++ c ∷ []) a b (rw (split_once_with, e) at h) in
      (c ∷ name, p ∙ append_assoc before (c ∷ []) name, ap (◌∷◌ c) q, (e, l))
]

-- A text without the separator is one piece, and any other has at least two.
pub split_with-cases :
    (sep : ℕ) (s cur : Text)
    → ((split_with sep s cur ≡ (cur ++ s) ∷ []) × Lacks sep s)
      ⊎ ((a : Text) × (b : Text) × (rest : List Text) × (split_with sep s cur ≡ a ∷ (b ∷ rest)))
split_with-cases sep [] cur = inl (ap (λ x. x ∷ []) (sym (append-nil cur)), tt)
split_with-cases sep (c ∷ s) cur = elim (Bool-cases (c == sep)) [
  | inl e ↦ elim (split_with-cases sep s []) [
    | inl (one, _) ↦ inr (cur, s, [], rw (split_with, e, one) refl)
    | inr (a, b, rest, more) ↦ inr (cur, a, b ∷ rest, rw (split_with, e, more) refl)
  ]
  | inr e ↦ elim (split_with-cases sep s (cur ++ c ∷ [])) [
    | inl (one, l) ↦
        inl (rw (split_with, e) (one ∙ ap (λ x. x ∷ []) (append_assoc cur (c ∷ []) s)), (e, l))
    | inr (a, b, rest, more) ↦ inr (a, b, rest, rw (split_with, e) more)
  ]
]

pub split_with-one : (sep : ℕ) (s cur : Text) → Lacks sep s → split_with sep s cur ≡ (cur ++ s) ∷ []
split_with-one sep [] cur h = ap (λ x. x ∷ []) (sym (append-nil cur))
split_with-one sep (c ∷ s) cur (e, h) =
    rw (split_with, e)
      (split_with-one sep s (cur ++ c ∷ []) h ∙ ap (λ x. x ∷ []) (append_assoc cur (c ∷ []) s))
