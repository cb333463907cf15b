-- ===== src/Reply.antt =====
-- The answers of the server, from crates/console-server/src/auth.rs: `error_json`, `auth_required` and the
-- rejections of requests without the credentials for a read or a mutation.
pub mod Laws
use muser_console.Base.{
  ℕ, Bool, true, false, Text, codes, List, [], ◌∷◌, Option, none, some, if◌then◌else◌,
}
use muser_console.Http.{Http, HeaderMap, Request, insert, is_post}
use muser_console.State.Types.{AppState, MutationAuthError}
use muser_console.State.Types
use muser_console.State.Sessions.{Authorisation, ok, err, authorized_read, authorized_mutation}

-- a document of `serde_json::json!`
mutual
  pub data Value : Type 0 where
    string : Text → Value
    number : ℕ → Value
    boolean : Bool → Value
    array : Values → Value
    object : Fields → Value

  pub data Values : Type 0 where
    no_item : Values
    item : Value → Values → Values

  pub data Fields : Type 0 where
    no_field : Fields
    field : Text → Value → Fields → Fields

-- What follows the head: a document, bytes, or after `on_upgrade` the bridge to an instance.
pub data Body : Type 0 where
  json : Value → Body
  bytes : List ℕ → Body
  bridge_to : Text → Body

pub record Response : Type 0 where
  pub status : ℕ
  pub headers : HeaderMap
  pub body : Body

-- `Json(value).into_response()`
abbrev pub json_response : ℕ → Value → Response
json_response status value = record {
  status = status;
  headers = (codes "content-type", codes "application/json") ∷ [];
  body = json value;
}

abbrev pub with_header : Response → Text → List ℕ → Response
with_header r name value = record r { headers = insert r.headers name value }

abbrev pub error_json : ℕ → Text → Text → Response
error_json status kind message = json_response status (
    object (
      field (codes "error")
        (object
          (field (codes "type") (string kind) (field (codes "message") (string message) no_field)))
        no_field))

abbrev pub auth_required : Response
auth_required =
    with_header
      (error_json 401 (codes "authentication_required")
        (codes "a valid bearer API key is required"))
      (codes "www-authenticate") (codes "Bearer")

abbrev pub csrf_required : Response
csrf_required =
    error_json 403 (codes "csrf_required")
      (codes "a valid CSRF token is required for this dashboard session")

-- the rejection of a read by what `authorized_read` found, and of a mutation by `authorized_mutation`
abbrev pub unread : Bool → Option Response
unread true = none
unread false = some auth_required

abbrev pub unchanged : Authorisation → Option Response
unchanged ok = none
unchanged (err Types.unauthorized) = some auth_required
unchanged (err Types.csrf) = some csrf_required

module _ (http : Http) where
  unfoldable pub read_rejection : AppState → HeaderMap → ℕ → AppState × Option Response
  unfolding authorized_read
  read_rejection s headers now =
      let (s', allowed) = authorized_read http s headers now in (s', unread allowed)

  unfoldable pub mutation_rejection : AppState → HeaderMap → ℕ → AppState × Option Response
  unfolding authorized_mutation
  mutation_rejection s headers now =
      let (s', allowed) = authorized_mutation http s headers now in (s', unchanged allowed)

  -- the rejection of a request by its method, as the proxying handlers choose it
  unfoldable pub rejection : AppState → Request → ℕ → AppState × Option Response
  unfolding read_rejection mutation_rejection
  rejection s request now =
      if is_post request
      then mutation_rejection s request.headers now
      else read_rejection s request.headers now

-- `if let Some(response) = rejection { return response; }`
abbrev pub unless_rejected {ℓ} :
    {R : Type ℓ}
    → AppState × Option Response
    → (Response → R)
    → (AppState → AppState × R)
    → AppState × R
unless_rejected (s, none) refuse proceed = proceed s
unless_rejected (s, some response) refuse proceed = (s, refuse response)
