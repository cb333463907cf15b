-- ===== src/Http.antt =====
-- What the server takes from the `http`, `base64` and `sha2` crates: a request's headers, and the
-- operations on them that those crates implement, as a parameter.
pub mod Laws
use muser_console.Base.{
  ℕ, Text, text_eq, List, [], ◌∷◌, Option, none, some, if◌then◌else◌, Bool, is_some, unwrap_or,
  split_once, ◌>>=◌, codes,
}

-- `HeaderMap`: the header lines in order, each a name in lower case with the bytes of its value.
abbrev pub HeaderMap : Type 0
HeaderMap = List (Text × List ℕ)

pub record Http : Type 0 where
  -- `HeaderValue::to_str().ok()`
  pub to_str : List ℕ → Option Text
  -- `HeaderValue::from_str(text).ok()`
  pub header_value : Text → Option (List ℕ)
  -- `Authority::from_str(text).ok()`, as its `as_str`
  pub authority : Text → Option Text
  -- `Sha256::digest`
  pub sha256 : List ℕ → List ℕ
  -- `URL_SAFE_NO_PAD.encode`
  pub encode : List ℕ → Text
  -- `URL_SAFE_NO_PAD.decode(text).ok()`
  pub decode : Text → Option (List ℕ)

-- `headers.get_all(name)`
abbrev pub get_all : HeaderMap → Text → List (List ℕ)
get_all [] name = []
get_all ((n, v) ∷ rest) name = if text_eq n name then v ∷ get_all rest name else get_all rest name

-- `headers.get(name)`
abbrev pub get : HeaderMap → Text → Option (List ℕ)
get headers name = elim (get_all headers name) [ [] ↦ none | v ∷ _ ↦ some v ]

-- `headers.remove(name)`
abbrev pub remove : HeaderMap → Text → HeaderMap
remove [] name = []
remove ((n, v) ∷ rest) name = if text_eq n name then remove rest name else (n, v) ∷ remove rest name

-- `headers.insert(name, value)`: replaces every value under the name.
abbrev pub insert : HeaderMap → Text → List ℕ → HeaderMap
insert headers name value = (name, value) ∷ remove headers name

-- `headers.contains_key(name)`
abbrev pub contains_key : HeaderMap → Text → Bool
contains_key headers name = is_some (get headers name)

-- `Uri`, as far as the routes read one: the authority it names and its `path_and_query`.
pub record Uri : Type 0 where
  pub authority : Option Text
  pub path_and_query : Option Text

-- `uri.path_and_query().map_or("/", as_str)`
abbrev pub full_path : Uri → Text
full_path uri = unwrap_or uri.path_and_query (codes "/")

-- `uri.path()`: what stands before the question mark
abbrev pub path : Uri → Text
path uri = elim uri.path_and_query [
  | none ↦ []
  | some text ↦ elim (split_once text b'?') [ none ↦ text | some (before, _) ↦ before ]
]

-- `uri.query()`: what stands behind it
abbrev pub query : Uri → Option Text
query uri = uri.path_and_query >>= λ text. elim (split_once text b'?') [
  | none ↦ none
  | some (_, after) ↦ some after
]

pub record Request : Type 0 where
  pub method : Text
  pub uri : Uri
  pub headers : HeaderMap
  pub body : List ℕ

-- `request.method() == Method::POST`
abbrev pub is_post : Request → Bool
is_post request = text_eq request.method (codes "POST")
