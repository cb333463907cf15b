-- ===== src/Config/Result.antt =====
-- What the functions of crates/console-server/src/config.rs return. The messages stand as their reasons.
use muser_console.Base.{Bool, true, false, Option, none, some, ◌≡◌, ◌⊎◌, refl, inl, inr}

pub data ConfigError : Type 0 where
  bad_toml bad_listen tls_needed half_tls empty_certificate empty_key long_key : ConfigError
  unopened not_regular wrong_mode too_long blank_key bad_key : ConfigError
  no_retention no_dashboard no_instance bad_name duplicate_name : ConfigError
  bad_scheme fragment query userinfo has_path bad_authority not_canonical not_loopback : ConfigError
  ca_without_https no_certificates bad_certificates no_roots bad_protocols : ConfigError
  bad_kind unknown_instance second_agent : ConfigError

pub data Result {ℓ} (A : Type ℓ) : Type ℓ where
  ok : A → Result A
  err : ConfigError → Result A

infixl 5 ◌>>=◌
abbrev pub ◌>>=◌ {ℓ κ} : {A : Type ℓ} {B : Type κ} → Result A → (A → Result B) → Result B
ok a >>= f = f a
err e >>= f = err e

-- `if test { return Err(e); }`
abbrev pub refuse_if : Bool → ConfigError → Result {0} Unit
refuse_if true e = err e
refuse_if false e = ok tt

-- `ok_or`, and `map_err` on what another crate returns
abbrev pub ok_or {ℓ} : {A : Type ℓ} → Option A → ConfigError → Result A
ok_or none e = err e
ok_or (some a) e = ok a

-- What a chain of fallible calls that succeeds has passed.
pub bind_ok {ℓ κ} :
    {A : Type ℓ} {B : Type κ} (r : Result A) (f : A → Result B) (b : B)
    → r >>= f ≡ ok b
    → (a : A) × (r ≡ ok a) × (f a ≡ ok b)
bind_ok (ok a) f b h = (a, refl, h)
bind_ok (err e) f b h = cc

pub refuse_ok {ℓ} :
    {B : Type ℓ} (test : Bool) (e : ConfigError) (f : Unit {0} → Result B) (b : B)
    → refuse_if test e >>= f ≡ ok b
    → (test ≡ false) × (f tt ≡ ok b)
refuse_ok true e f b h = cc
refuse_ok false e f b h = (refl, h)

pub option_ok {ℓ κ} :
    {A : Type ℓ} {B : Type κ} (o : Option A) (e : ConfigError) (f : A → Result B) (b : B)
    → ok_or o e >>= f ≡ ok b
    → (a : A) × (o ≡ some a) × (f a ≡ ok b)
option_ok none e f b h = cc
option_ok (some a) e f b h = (a, refl, h)

-- To split on a computed result and keep the equation.
pub Result-cases {ℓ} :
    {A : Type ℓ} (r : Result A) → ((a : A) × (r ≡ ok a)) ⊎ ((e : ConfigError) × (r ≡ err e))
Result-cases (ok a) = inl (a, refl)
Result-cases (err e) = inr (e, refl)
