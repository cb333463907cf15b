-- ===== src/Config/Parse/Loops.antt =====
-- What the loops of `Config::parse` in crates/console-server/src/config.rs keep of the entries they accept.
use muser_console.Base.{
  ◌+◌, Bool, false, Text, text_eq, List, [], ◌∷◌, ◌++◌, length, length-append, any, All, All-append,
  ◌≡◌, inl, inr, arith,
}
use muser_console.Config.Types.{Instance, Agent}
use muser_console.Config.Entries.{RawInstance, RawAgent, Host, validate_instance, validate_agent}
use muser_console.Config.Entries.Laws.{
  IsInstance, validate_instance_sound, IsAgent, validate_agent_sound,
}
use muser_console.Config.Result.{ok, Result-cases}
use muser_console.Config.Parse.{instances_with, same_place, agents_with}

module _ {A : Type 0} (R : A → A → Type 0) where
  -- every element has the relation to each that stands behind it
  abbrev pub Pairwise : List A → Type 0
  Pairwise [] = Unit
  Pairwise (x ∷ xs) = All (R x) xs × Pairwise xs

  Pairwise-snoc :
      (xs : List A) (y : A) → Pairwise xs → All (λ x. R x y) xs → Pairwise (xs ++ y ∷ [])
  Pairwise-snoc [] y h k = (tt, tt)
  Pairwise-snoc (x ∷ xs) y (hx, h) (kx, k) =
      (All-append (R x) xs (y ∷ []) hx (kx, tt), Pairwise-snoc xs y h k)

module _ {A : Type 0} where
  any-none : (p : A → Bool) (xs : List A) → any p xs ≡ false → All (λ x. p x ≡ false) xs
  any-none p [] h = tt
  any-none p (x ∷ xs) h = ground (arith, h, any-none p xs)

  both-none :
      (p q : A → Bool) (xs : List A)
      → any p xs ≡ false
      → any q xs ≡ false
      → All (λ x. (p x ≡ false) × (q x ≡ false)) xs
  both-none p q [] h k = tt
  both-none p q (x ∷ xs) h k = ground (arith, h, k, both-none p q xs)

-- two instances with different names
abbrev pub Apart : Instance → Instance → Type 0
Apart a b = text_eq a.name b.name ≡ false

pub instances_with_sound :
    (host : Host) (base_dir : Text) (raws : List RawInstance) (accepted result : List Instance)
    → All (IsInstance host) accepted
    → Pairwise Apart accepted
    → instances_with host base_dir raws accepted ≡ ok result
    → All (IsInstance host) result
      × Pairwise Apart result
      × (length result ≡ length accepted + length raws)
instances_with_sound host base_dir [] accepted result valid apart h =
    let same : accepted ≡ result = cc h in rw (← same) (valid, apart, omega arith)
instances_with_sound host base_dir (raw ∷ raws) accepted result valid apart h =
    elim (Result-cases (validate_instance host base_dir raw)) [
      | inr (e, bad) ↦ absurd (cc (rw (instances_with, bad) at h))
      | inl (i, is) ↦
          let taken : any (λ (e : Instance). text_eq e.name i.name) accepted ≡ false =
            ground (arith, h, is) in
          let (all_valid, all_apart, count) =
            instances_with_sound host base_dir raws (accepted ++ i ∷ []) result
              (All-append (IsInstance host) accepted (i ∷ []) valid
                (validate_instance_sound host base_dir raw i is, tt))
              (Pairwise-snoc Apart accepted i apart (any-none _ accepted taken))
              (rw (instances_with, is, taken) at h) in
          (all_valid, all_apart, omega (arith, count, length-append accepted (i ∷ [])))
    ]

-- two agents with different names, and not of one kind on one instance
abbrev pub Separate : Agent → Agent → Type 0
Separate a b = (text_eq a.name b.name ≡ false) × (same_place b a ≡ false)

pub agents_with_sound :
    (host : Host) (instances : List Instance) (raws : List RawAgent) (accepted result : List Agent)
    → All (IsAgent instances) accepted
    → Pairwise Separate accepted
    → agents_with host instances raws accepted ≡ ok result
    → All (IsAgent instances) result × Pairwise Separate result
agents_with_sound host instances [] accepted result valid apart h =
    let same : accepted ≡ result = cc h in rw (← same) (valid, apart)
agents_with_sound host instances (raw ∷ raws) accepted result valid apart h =
    elim (Result-cases (validate_agent host instances raw)) [
      | inr (e, bad) ↦ absurd (cc (rw (agents_with, bad) at h))
      | inl (a, is) ↦
          let taken : any (λ (e : Agent). text_eq e.name a.name) accepted ≡ false =
            ground (arith, h, is) in
          let second : any (same_place a) accepted ≡ false = ground (arith, h, is) in
          agents_with_sound host instances raws (accepted ++ a ∷ []) result
            (All-append (IsAgent instances) accepted (a ∷ []) valid
              (validate_agent_sound host instances raw a is, tt))
            (Pairwise-snoc Separate accepted a apart
              (both-none _ (same_place a) accepted taken second))
            (rw (agents_with, is, taken, second) at h)
    ]
