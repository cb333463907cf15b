-- ===== src/Config/Url/Laws.antt =====
-- What `validate_base_url` and `valid_name` of crates/console-server/src/config.rs guarantee.
use muser_console.Base.{
  ℕ, Bool, true, false, not, ==_iff, ◌&&◌, ◌||◌, Text, codes, text_eq, strip_prefix, [], ◌∷◌, ◌++◌,
  all, some, unwrap_or, ◌≡◌, ◌⊎◌, ◌≢◌, refl, sym, ap, ◌∙◌, subst, inl, inr, arith, Bool-cases,
  Option-cases, append_assoc,
}
use muser_console.Base.Cut.{Lacks, strip_prefix_iff}
use muser_console.Config.Result.{ok}
use muser_console.Config.Url.{
  Net, Authority, ParsedBaseUrl, name_byte, valid_name, strip_suffix, contains, scheme_of,
  is_loopback_literal, validate_rest, validate_base_url,
}

contains-Lacks : (s : Text) (c : ℕ) → contains s c ≡ false → Lacks c s
contains-Lacks [] c h = tt
contains-Lacks (x ∷ s) c h = ground (arith, h, contains-Lacks s c)

-- A valid name has no slash, so it is one segment of a path.
pub valid_name-Lacks : (name : Text) → valid_name name ≡ true → Lacks b'/' name
unfolding valid_name
valid_name-Lacks name h = go name (ground (arith, h))
  where
    go : (s : Text) → all name_byte s ≡ true → Lacks b'/' s
    go [] k = tt
    go (x ∷ s) k = ground (arith, k, go s)

strip_suffix_is : (s : Text) (c : ℕ) (r : Text) → strip_suffix s c ≡ some r → s ≡ r ++ c ∷ []
strip_suffix_is [] c r h = cc
strip_suffix_is (x ∷ []) c r h = ground (arith, h, ==_iff x c)
strip_suffix_is (x ∷ (y ∷ s)) c r h = elim (Option-cases (strip_suffix (y ∷ s) c)) [
  | inl e ↦ cc (rw (strip_suffix, e) at h)
  | inr (r', e) ↦
      let made : some (x ∷ r') ≡ some r = rw (strip_suffix, e) at h in
      let same : x ∷ r' ≡ r = cc made in
      ap (◌∷◌ x) (strip_suffix_is (y ∷ s) c r' e) ∙ ap (λ z. z ++ c ∷ []) same
]

Lacks-front : (c : ℕ) (s t : Text) → Lacks c (s ++ t) → Lacks c s
Lacks-front c [] t h = tt
Lacks-front c (x ∷ s) t (hx, h) = (hx, Lacks-front c s t h)

-- the scheme by whether it is https
abbrev pub scheme : Bool → Text
scheme true = codes "https"
scheme false = codes "http"

scheme_of_is :
    (raw s after : Text) (is_https : Bool)
    → scheme_of raw ≡ some (s, after, is_https)
    → (s ≡ scheme is_https) × (raw ≡ scheme is_https ++ (codes "://" ++ after))
scheme_of_is raw s after is_https h = elim (Option-cases (strip_prefix raw (codes "https://"))) [
  | inr (rest, e) ↦
      let made : some (codes "https", rest, true) ≡ some (s, after, is_https) =
        rw (scheme_of, e) at h in
      let x : codes "https" ≡ s = cc made in
      let y : rest ≡ after = cc made in
      let z : true ≡ is_https = cc made in
      rw (← z) (
        sym x,
        (strip_prefix_iff raw (codes "https://") rest).0 e ∙ ap (λ r. codes "https://" ++ r) y,
      )
  | inl e ↦ elim (Option-cases (strip_prefix raw (codes "http://"))) [
    | inl f ↦ cc (rw (scheme_of, e, f) at h)
    | inr (rest, f) ↦
        let made : some (codes "http", rest, false) ≡ some (s, after, is_https) =
          rw (scheme_of, e, f) at h in
        let x : codes "http" ≡ s = cc made in
        let y : rest ≡ after = cc made in
        let z : false ≡ is_https = cc made in
        rw (← z) (
          sym x,
          (strip_prefix_iff raw (codes "http://") rest).0 f ∙ ap (λ r. codes "http://" ++ r) y,
        )
  ]
]

-- What is left of a URL behind its scheme, with or without one slash at its end.
bare_is :
    (after : Text)
    → let rest = unwrap_or (strip_suffix after b'/') after in
      (after ≡ rest) ⊎ (after ≡ rest ++ b'/' ∷ [])
bare_is after = elim (Option-cases (strip_suffix after b'/')) [
  | inl e ↦ rw e (inl refl)
  | inr (r, e) ↦ rw e (inr (strip_suffix_is after b'/' r e))
]

bare-Lacks :
    (c : ℕ) (after rest : Text)
    → (after ≡ rest) ⊎ (after ≡ rest ++ b'/' ∷ [])
    → Lacks c after
    → Lacks c rest
bare-Lacks c after rest (inl e) h = subst (Lacks c) e h
bare-Lacks c after rest (inr e) h = Lacks-front c rest (b'/' ∷ []) (subst (Lacks c) e h)

-- An engine that is not a literal loopback address is spoken to by TLS only.
abbrev pub IsSecure : Net → ParsedBaseUrl → Type 0
IsSecure net p =
    (p.is_https ≡ true)
    ⊎ ((a : Authority) × (net.authority p.authority ≡ some a)
        × (is_loopback_literal net a.host ≡ true))

-- An origin, and nothing more: a scheme and an authority without path, query, fragment or user.
abbrev pub IsOrigin : ParsedBaseUrl → Type 0
IsOrigin p =
    (p.base_url ≡ scheme p.is_https ++ (codes "://" ++ p.authority))
    × (p.authority ≢ [])
    × Lacks b'/' p.authority
    × Lacks b'?' p.authority
    × Lacks b'#' p.authority
    × Lacks b'@' p.authority

-- what the checks behind the scheme establish
abbrev Checked : Net → Text → Bool → Bool → ParsedBaseUrl → Type 0
Checked net after is_https secure p =
    IsOrigin p
    × ((secure ≡ false) ⊎ IsSecure net p)
    × ((after ≡ p.authority) ⊎ (after ≡ p.authority ++ b'/' ∷ []))
    × (p.is_https ≡ is_https)

validate_rest_sound :
    (net : Net) (after : Text) (is_https secure : Bool) (p : ParsedBaseUrl)
    → validate_rest net (scheme is_https) after is_https secure ≡ ok p
    → Checked net after is_https secure p
validate_rest_sound net after is_https secure p h =
    let rest = unwrap_or (strip_suffix after b'/') after in
    let no_hash : contains after b'#' ≡ false = ground (arith, h) in
    let no_query : contains after b'?' ≡ false = ground (arith, h) in
    let no_user : contains after b'@' ≡ false = ground (arith, h) in
    let no_path : (text_eq rest [] || contains rest b'/') ≡ false = ground (arith, h) in
    elim (Option-cases (net.authority rest)) [
      | inl bad ↦ absurd (ground (arith, h, bad))
      | inr (a, at) ↦
          let canonical : text_eq a.as_str rest ≡ true = ground (arith, h, at) in
          let secured : (secure && (not is_https && not (is_loopback_literal net a.host))) ≡ false =
            ground (arith, h, at) in
          let made : ok (record {
            base_url = scheme is_https ++ (codes "://" ++ rest);
            authority = rest;
            is_https = is_https;
          })
              ≡ ok p =
            rw (no_hash, no_query, no_user, no_path, at, canonical, secured) at h in
          let same : record {
            base_url = scheme is_https ++ (codes "://" ++ rest);
            authority = rest;
            is_https = is_https;
          }
              ≡ p =
            cc made in
          let at_rest = bare_is after in
          let empty : text_eq rest [] ≡ false = ground (arith, no_path) in
          let secure_enough : (secure ≡ false)
              ⊎ ((is_https ≡ true)
                  ⊎ ((b : Authority) × (net.authority rest ≡ some b)
                      × (is_loopback_literal net b.host ≡ true))) =
            elim (Bool-cases secure) [
              | inr e ↦ inl e
              | inl e ↦ elim (Bool-cases is_https) [
                | inl f ↦ inr (inl f)
                | inr f ↦ inr (inr (a, at, ground (arith, secured, e, f)))
              ]
            ] in
          subst (Checked net after is_https secure) same (
            (
              refl,
              λ e. cc (rw e at empty),
              contains-Lacks rest b'/' (ground (arith, no_path)),
              bare-Lacks b'?' after rest at_rest (contains-Lacks after b'?' no_query),
              bare-Lacks b'#' after rest at_rest (contains-Lacks after b'#' no_hash),
              bare-Lacks b'@' after rest at_rest (contains-Lacks after b'@' no_user),
            ),
            secure_enough,
            at_rest,
            refl,
          )
    ]

-- An accepted URL is an origin, spelled as it was written but for one slash at its end; and that of an engine
-- is https, or has a literal loopback address for its host.
pub validate_base_url_sound :
    (net : Net) (raw : Text) (secure_remote_engine : Bool) (p : ParsedBaseUrl)
    → validate_base_url net raw secure_remote_engine ≡ ok p
    → IsOrigin p
      × ((raw ≡ p.base_url) ⊎ (raw ≡ p.base_url ++ b'/' ∷ []))
      × ((secure_remote_engine ≡ false) ⊎ IsSecure net p)
unfolding validate_base_url
validate_base_url_sound net raw secure p h = elim (Option-cases (scheme_of raw)) [
  | inl e ↦ cc (rw (validate_base_url, e) at h)
  | inr ((s, after, is_https), e) ↦
      let (s_is, raw_is) = scheme_of_is raw s after is_https e in
      let (origin, secured, at, same) =
        validate_rest_sound net after is_https secure p (rw (validate_base_url, e, s_is) at h) in
      (
        origin,
        elim at [
          | inl k ↦ inl (
              raw_is
              ∙ ap (λ x. scheme is_https ++ (codes "://" ++ x)) k
              ∙ ap (λ b. scheme b ++ (codes "://" ++ p.authority)) (sym same)
              ∙ sym origin.0)
          | inr k ↦ inr (
              raw_is
              ∙ ap (λ x. scheme is_https ++ (codes "://" ++ x)) k
              ∙ ap (λ b. scheme b ++ (codes "://" ++ (p.authority ++ b'/' ∷ []))) (sym same)
              ∙ sym (append_assoc (scheme p.is_https) (codes "://" ++ p.authority) (b'/' ∷ []))
              ∙ ap (λ x. x ++ b'/' ∷ []) (sym origin.0))
        ],
        secured,
      )
]
