-- ===== src/Routes/Proxied.antt =====
-- The proxying handlers of crates/console-server/src/routes.rs: `proxied` for the default instance and
-- `instance_proxied` for the one that the path names. Each returns what was sent to an engine too.
pub mod Laws
use muser_console.Base.{ℕ, Bool, Text, codes, List, [], ◌∷◌, Option, none, some, map, ◌>>=◌}
use muser_console.Config.Types.{Config, Instance, instance_named}
use muser_console.Http.{Http, Request, full_path}
use muser_console.State.Types.{AppState}
use muser_console.Reply.{Response, error_json, rejection, unless_rejected}
use muser_console.Proxy.{Wire, Call, forward}
use muser_console.Routes.Origin.{split_instance}

abbrev pub unknown_instance : Response
unknown_instance = error_json 404 (codes "not_found") (codes "unknown instance")

-- `AppState::default_instance`: `none` is the index panic on an empty list.
abbrev pub default_instance : Config → Option Instance
default_instance c = elim c.instances [ [] ↦ none | i ∷ _ ↦ some i ]

-- The instance and the upstream path that a full path names.
unfoldable pub resolve : Config → Text → Option (Instance × Text)
unfolding split_instance
resolve c full = do
  (name, upstream_path) ← split_instance full
  i ← instance_named c name
  some (i, upstream_path)

module _ (http : Http) (wire : Wire) where
  -- `none` is the panic of `default_instance`
  unfoldable pub proxied : AppState → Request → Bool → ℕ → AppState × Option (List Call × Response)
  unfolding rejection forward
  proxied s request streaming now =
      unless_rejected (rejection http s request now) (λ response. some ([], response))
        (λ s'. (
          s',
          elim (default_instance s'.config) [
            | none ↦ none
            | some i ↦ some (forward http wire i request streaming (full_path request.uri))
          ],
        ))

  unfoldable pub instance_proxied :
      AppState → Request → Bool → ℕ → AppState × (List Call × Response)
  unfolding rejection forward resolve
  instance_proxied s request streaming now =
      unless_rejected (rejection http s request now) (λ response. ([], response))
        (λ s'. (
          s',
          elim (resolve s'.config (full_path request.uri)) [
            | none ↦ ([], unknown_instance)
            | some (i, upstream_path) ↦ forward http wire i request streaming upstream_path
          ],
        ))
