-- ===== src/Routes/Origin/Laws.antt =====
-- What the checks of crates/console-server/src/routes.rs on authorities, origins and instance paths accept.
use muser_console.Base.{
  ℕ, false, Text, codes, text_eq, text_eq_refl, text_eq→eq, strip_prefix, split_once, List, [], ◌∷◌,
  ◌++◌, Option, none, some, ◌>>=◌, if◌then◌else◌, Bool-cases, Option-cases, ◌≡◌, ◌↔◌, refl, sym, ap,
  subst, inl, inr, arith, ◌∙◌,
}
use muser_console.Base.Cut.{Lacks, split_once-finds, split_once-Lacks, strip_prefix_iff}
use muser_console.Http.{Http, HeaderMap, Request, get_all, contains_key, insert}
use muser_console.Http.Laws.{get_all-insert}
use muser_console.State.Headers.{single_header, request_origin}
use muser_console.Routes.Origin.{accepted, normalize_authority, valid_login_origin, split_instance}

-- an expectation against what is there
matched : Option Text → Option Text → Option Text
matched expected found = do e ← expected; f ← found; if text_eq f e then some e else none

matched_iff :
    (expected found : Option Text) (t : Text)
    → (matched expected found ≡ some t) ↔ ((expected ≡ some t) × (found ≡ some t))
unfolding matched
matched_iff none found t = (λ h. cc, λ (a, b). cc)
matched_iff (some e) none t = (λ h. cc, λ (a, b). cc)
matched_iff (some e) (some f) t = elim (Bool-cases (text_eq f e)) [
  | inr apart ↦ (
    λ h. cc (rw apart at h),
    λ (a, b). let x : f ≡ e = cc (a, b) in cc (rw (x, text_eq_refl e) at apart),
  )
  | inl same ↦ (
    λ h. let x : e ≡ t = cc (rw same at h) in (ap some x, ap some (text_eq→eq f e same ∙ x)),
    λ (a, b). rw same a,
  )
]

module _ (http : Http) where
  valid_login_origin-matched :
      (headers : HeaderMap)
      → valid_login_origin http headers
        ≡ matched (request_origin http headers) (single_header http headers (codes "origin"))
  unfolding valid_login_origin request_origin matched
  valid_login_origin-matched headers =
      elim (Option-cases (single_header http headers (codes "host"))) [
        | inl e ↦ rw (valid_login_origin, request_origin, e) refl
        | inr (host, e) ↦ elim (Option-cases (http.authority host)) [
          | inl f ↦ rw (valid_login_origin, request_origin, e, f) refl
          | inr (authority, f) ↦ elim (Bool-cases (text_eq authority host)) [
            | inr g ↦ rw (valid_login_origin, request_origin, e, f, g) refl
            | inl g ↦ rw (valid_login_origin, request_origin, e, f, g) refl
          ]
        ]
      ]

  -- The origin of a login is the origin that the sessions are bound to (`request_origin` of the state), and
  -- it is accepted if and only if the one Origin header of the request says the same.
  pub valid_login_origin_iff :
      (headers : HeaderMap) (origin : Text)
      → (valid_login_origin http headers ≡ some origin) ↔ (
          (request_origin http headers ≡ some origin)
          × (single_header http headers (codes "origin") ≡ some origin))
  valid_login_origin_iff headers origin = rw (valid_login_origin-matched headers) (
      matched_iff (request_origin http headers) (single_header http headers (codes "origin"))
        origin)

  alone :
      (headers : HeaderMap) (authority : Text) (value : List ℕ)
      → http.to_str value ≡ some authority
      → single_header http (insert headers (codes "host") value) (codes "host") ≡ some authority
  unfolding single_header
  alone headers authority value e =
      ground (arith, get_all-insert (codes "host") (codes "host") value headers, e)

  -- A request that the middleware lets through and whose URI names an authority says that authority in its
  -- one Host header, if header values read back as they were written; its other headers are unchanged.
  pub normalize_authority-Agrees :
      ((text : Text) (value : List ℕ)
        → http.header_value text ≡ some value
        → http.to_str value ≡ some text)
      → (request request' : Request) (authority : Text) → request.uri.authority ≡ some authority
      → normalize_authority http request ≡ accepted request'
      → (single_header http request'.headers (codes "host") ≡ some authority)
        × ((name : Text)
            → text_eq name (codes "host") ≡ false
            → get_all request'.headers name ≡ get_all request.headers name)
  unfolding normalize_authority single_header
  normalize_authority-Agrees reads request request' authority named h =
      elim (Option-cases (single_header http request.headers (codes "host"))) [
        | inr (host, one) ↦ elim (Bool-cases (text_eq host authority)) [
          | inr apart ↦ cc (rw (named, normalize_authority, one, apart) at h)
          | inl same ↦
              let e : request ≡ request' = cc (rw (named, normalize_authority, one, same) at h) in
              rw (← e) (one ∙ ap some (text_eq→eq host authority same), λ name _. refl)
        ]
        | inl missing ↦ elim (Bool-cases (contains_key request.headers (codes "host"))) [
          | inl there ↦ cc (rw (named, normalize_authority, missing, there) at h)
          | inr absent ↦ elim (Option-cases (http.header_value authority)) [
            | inl bad ↦ cc (rw (named, normalize_authority, missing, absent, bad) at h)
            | inr (value, valued) ↦
                let made : accepted
                      (record request { headers = insert request.headers (codes "host") value })
                    ≡ accepted request' =
                  rw (named, normalize_authority, missing, absent, valued) at h in
                let e : insert request.headers (codes "host") value ≡ request'.headers = cc made in
                rw (← e) (
                  alone request.headers authority value (reads authority value valued),
                  λ name other.
                      rw (get_all-insert (codes "host") name value request.headers, other) refl,
                )
          ]
        ]
      ]

-- A path is split into a name and a rest if and only if it is `/i/`, the name, and the rest, which starts
-- with the first slash behind the name.
pub split_instance_iff :
    (full name rest : Text)
    → (split_instance full ≡ some (name, rest)) ↔ (
        (behind : Text) × (rest ≡ b'/' ∷ behind)
        × (full ≡ codes "/i/" ++ (name ++ rest))
        × Lacks b'/' name)
unfolding split_instance
split_instance_iff full name rest = (there, back)
  where
    back :
        (behind : Text) × (rest ≡ b'/' ∷ behind)
          × (full ≡ codes "/i/" ++ (name ++ rest))
          × Lacks b'/' name
        → split_instance full ≡ some (name, rest)
    back (behind, e, f, l) = rw (f, e, split_once-finds b'/' name behind [] l) refl

    there :
        split_instance full ≡ some (name, rest)
        → (behind : Text) × (rest ≡ b'/' ∷ behind)
          × (full ≡ codes "/i/" ++ (name ++ rest))
          × Lacks b'/' name
    there h = elim (Option-cases (strip_prefix full (codes "/i/"))) [
      | inl e ↦ cc (rw e at h)
      | inr (s, e) ↦ elim (Option-cases (split_once s b'/')) [
        | inl f ↦ cc (rw (e, f) at h)
        | inr ((a, b), f) ↦
            let (k, x, q, l) = split_once-Lacks b'/' s [] a b f in
            let made : some (a, b'/' ∷ b) ≡ some (name, rest) = rw (e, f) at h in
            let n : a ≡ name = cc made in
            let r : b'/' ∷ b ≡ rest = cc made in
            let full_is : full ≡ codes "/i/" ++ s = (strip_prefix_iff full (codes "/i/") s).0 e in
            (b, sym r, rw (full_is, q, ← r, ← n, x) refl, subst (Lacks b'/') (sym x ∙ n) l)
      ]
    ]
