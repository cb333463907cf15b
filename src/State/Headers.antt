-- ===== src/State/Headers.antt =====
-- `single_header`, `cookie_value` and `request_origin` of crates/console-server/src/state.rs.
use muser_console.Base.{
  ℕ, true, false, ◌||◌, Text, codes, text_eq, split, split_once, trim, if◌then◌else◌, List, [], ◌∷◌,
  ◌++◌, Option, none, some, is_some, ◌>>=◌,
}
use muser_console.Http.{Http, HeaderMap, get_all}

module _ (http : Http) where
  unfoldable pub single_header : HeaderMap → Text → Option Text
  single_header headers name = elim (get_all headers name) [
    | [] ↦ none
    | v ∷ rest ↦ http.to_str v >>= λ first. elim rest [ [] ↦ some first | _ ∷ _ ↦ none ]
  ]

  unfoldable pub request_origin : HeaderMap → Option Text
  unfolding single_header
  request_origin headers = do
    host ← single_header headers (codes "host")
    authority ← http.authority host
    if text_eq authority host then some (codes "https://" ++ authority) else none

-- What the loop over the parts of one header has found: `none` is the early `return None`.
unfoldable pub cookie_parts : Text → List Text → Option Text → Option (Option Text)
cookie_parts name [] found = some found
cookie_parts name (part ∷ rest) found = elim (split_once (trim part) b'=') [
  | none ↦ cookie_parts name rest found
  | some (candidate_name, value) ↦ elim (text_eq candidate_name name) [
    | false ↦ cookie_parts name rest found
    | true ↦ elim (is_some found || text_eq value []) [
      | true ↦ none
      | false ↦ cookie_parts name rest (some value)
    ]
  ]
]

module _ (http : Http) where
  unfoldable pub cookie_headers : Text → List (List ℕ) → Option Text → Option Text
  unfolding cookie_parts
  cookie_headers name [] found = found
  cookie_headers name (header ∷ rest) found = do
    text ← http.to_str header
    found' ← cookie_parts name (split text b';') found
    cookie_headers name rest found'

  unfoldable pub cookie_value : HeaderMap → Text → Option Text
  unfolding cookie_headers
  cookie_value headers name = cookie_headers name (get_all headers (codes "cookie")) none
