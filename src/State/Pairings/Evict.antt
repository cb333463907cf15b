-- ===== src/State/Pairings/Evict.antt =====
-- The loop of `mint_pairing` that evicts pairings, in crates/console-server/src/state.rs.
use muser_console.Base.{
  ℕ, zero, suc, ◌≤◌, ◌<◌, Bool, true, not, leb, leb→le, List, [], ◌∷◌, any, length, retain,
  remove_first, count_if, Bool-cases, ◌≡◌, refl, ap, inl, inr, arith,
}
use muser_console.State.Types.{Pairing, max_pairings_per_session}
use muser_console.State.Pairings.{issued_by, evict}

pub count-remove_first-le :
    (p q : Pairing → Bool) (m : List Pairing) → count_if p (remove_first q m) ≤ count_if p m
count-remove_first-le p q [] = omega arith
count-remove_first-le p q (x ∷ m) = ground (arith, count-remove_first-le p q m)

pub any_of_count : (p : Pairing → Bool) (m : List Pairing) → 1 ≤ count_if p m → any p m ≡ true
any_of_count p [] h = absurd (omega arith)
any_of_count p (x ∷ m) h = ground (arith, any_of_count p m)

pub length-remove_first :
    (p : Pairing → Bool) (m : List Pairing)
    → any p m ≡ true
    → suc (length (remove_first p m)) ≡ length m
length-remove_first p [] h = cc
length-remove_first p (x ∷ m) h = elim (Bool-cases (p x)) [
  | inl hit ↦ rw hit
  | inr miss ↦ rw miss (ap suc (length-remove_first p m (rw miss at h)))
]

-- The loop ends below the cap: more fuel than there are pairings is enough.
pub evict_below :
    (fuel : ℕ) (issuer : List ℕ) (m : List Pairing)
    → length m < fuel
    → count_if (issued_by issuer) (evict fuel issuer m) < max_pairings_per_session
unfolding evict
evict_below zero issuer m h = absurd (omega arith)
evict_below (suc fuel) issuer m h = elim (Bool-cases (leb 5 (count_if (issued_by issuer) m))) [
  | inr below ↦ rw (below, evict) (ground (arith, below))
  | inl full ↦
      let some_left =
        any_of_count (issued_by issuer) m
          (omega (arith, leb→le 5 (count_if (issued_by issuer) m) full)) in
      rw (full, evict, some_left)
        (evict_below fuel issuer (remove_first (issued_by issuer) m)
          (omega (arith, length-remove_first (issued_by issuer) m some_left)))
]

pub count-evict-le :
    (fuel : ℕ) (p : Pairing → Bool) (issuer : List ℕ) (m : List Pairing)
    → count_if p (evict fuel issuer m) ≤ count_if p m
unfolding evict
count-evict-le zero p issuer m = omega arith
count-evict-le (suc fuel) p issuer m = ground (
  arith,
  count-evict-le fuel p issuer (remove_first (issued_by issuer) m),
  count-remove_first-le p (issued_by issuer) m,
)

-- the pairings of the other sessions
abbrev pub of_others : List ℕ → List Pairing → List Pairing
of_others issuer = retain (λ e. not (issued_by issuer e))

pub of_others-remove_first :
    (issuer : List ℕ) (m : List Pairing)
    → of_others issuer (remove_first (issued_by issuer) m) ≡ of_others issuer m
of_others-remove_first issuer [] = refl
of_others-remove_first issuer (x ∷ m) = ground (arith, of_others-remove_first issuer m)

pub of_others-evict :
    (fuel : ℕ) (issuer : List ℕ) (m : List Pairing)
    → of_others issuer (evict fuel issuer m) ≡ of_others issuer m
unfolding evict
of_others-evict zero issuer m = refl
of_others-evict (suc fuel) issuer m = ground (
  arith,
  of_others-evict fuel issuer (remove_first (issued_by issuer) m),
  of_others-remove_first issuer m,
)
