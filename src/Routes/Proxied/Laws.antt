-- ===== src/Routes/Proxied/Laws.antt =====
-- Which requests reach an engine through crates/console-server/src/routes.rs, and with what.
use muser_console.Base.{
  ℕ, Bool, Text, codes, text_eq→eq, [], ◌∷◌, ◌++◌, none, some, find_passes, Option-cases, ◌≡◌, ◌⊎◌,
  refl, ◌∙◌, sym, ap, subst, inl, inr,
}
use muser_console.Base.Cut.{Lacks}
use muser_console.Config.Types.{Config, Instance, instance_named}
use muser_console.Http.{Http, Request, full_path}
use muser_console.State.Types.{AppState}
use muser_console.Reply.{rejection, unless_rejected}
use muser_console.Reply.Laws.{rejection-SameButSessions}
use muser_console.Proxy.{Wire, upstream_request, forward}
use muser_console.Routes.Origin.{split_instance}
use muser_console.Routes.Origin.Laws.{split_instance_iff}
use muser_console.Routes.Proxied.{resolve, instance_proxied}

-- The instance whose name stands between `/i/` and the next slash, and the path from that slash on.
abbrev pub Names : Config → Text → Instance → Text → Type 0
Names c full i rest =
    (instance_named c i.name ≡ some i)
    × ((behind : Text) × (rest ≡ b'/' ∷ behind))
    × (full ≡ codes "/i/" ++ (i.name ++ rest))
    × Lacks b'/' i.name

resolve-Names :
    (c : Config) (full : Text) (i : Instance) (rest : Text)
    → resolve c full ≡ some (i, rest)
    → Names c full i rest
unfolding resolve
resolve-Names c full i rest h = elim (Option-cases (split_instance full)) [
  | inl e ↦ cc (rw (resolve, e) at h)
  | inr ((name, behind), e) ↦ elim (Option-cases (instance_named c name)) [
    | inl f ↦ cc (rw (resolve, e, f) at h)
    | inr (j, f) ↦
        let made : some (j, behind) ≡ some (i, rest) = rw (resolve, e, f) at h in
        let ji : j ≡ i = cc made in
        let br : behind ≡ rest = cc made in
        let named : j.name ≡ name = text_eq→eq j.name name (find_passes _ c.instances j f) in
        let (tail, slash, path_is, lacks) = (split_instance_iff full name behind).0 e in
        subst (λ x. Names c full x rest) ji
          (
            subst (λ n. instance_named c n ≡ some j) (sym named) f,
            (tail, sym br ∙ slash),
            rw (named, ← br) path_is,
            rw named lacks,
          )
  ]
]

module _ (http : Http) (wire : Wire) where
  -- What an instance route sends: nothing, or one request, and that only if the browser's request is not
  -- rejected, to the configured instance whose name stands between `/i/` and the next slash of its path, with
  -- the rest of the path, from that slash on, as the target.
  pub instance_proxied-sent :
      (s : AppState) (request : Request) (streaming : Bool) (now : ℕ)
      → let sent = (instance_proxied http wire s request streaming now).1.0 in
        (sent ≡ [])
        ⊎ ((i : Instance) × (rest : Text) × (up : Request) × ((rejection http s request now).1
              ≡ none)
            × Names s.config (full_path request.uri) i rest
            × (upstream_request http wire i request rest ≡ some up)
            × (sent ≡ record { instance_of = i; streaming = streaming; request = up } ∷ []))
  unfolding instance_proxied forward
  instance_proxied-sent s request streaming now =
      let r = rejection http s request now in
      let same : r.0.config ≡ s.config =
        ap (λ (x : AppState). x.config) (rejection-SameButSessions http s request now) in
      elim (Option-cases r.1) [
        | inr (response, e) ↦ inl (rw (instance_proxied, unless_rejected, e) refl)
        | inl e ↦ elim (Option-cases (resolve s.config (full_path request.uri))) [
          | inl f ↦ inl (rw (instance_proxied, unless_rejected, e, same, f) refl)
          | inr ((i, rest), f) ↦ elim (Option-cases (upstream_request http wire i request rest)) [
            | inl g ↦ inl (rw (instance_proxied, unless_rejected, e, same, f, forward, g) refl)
            | inr (up, g) ↦ inr (
              i,
              rest,
              up,
              e,
              resolve-Names s.config (full_path request.uri) i rest f,
              g,
              rw (instance_proxied, unless_rejected, e, same, f, forward, g) refl,
            )
          ]
        ]
      ]
