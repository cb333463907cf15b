-- ===== src/Proxy.antt =====
-- The forwarding of requests to engines, from crates/console-server/src/proxy.rs. The HTTP clients are a
-- parameter; what is sent to one is recorded.
pub mod Laws
use muser_console.Base.{
  ℕ, Bool, true, false, leb, ltb, ◌&&◌, not, ◌+◌, Text, codes, split, trim, text_eq, List, [], ◌∷◌,
  ◌++◌, map, retain, Option, none, some, if◌then◌else◌, ◌>>=◌,
}
use muser_console.Config.Types.{Instance}
use muser_console.Http.{Http, HeaderMap, Uri, Request, get_all, remove, insert}
use muser_console.Http.Laws.{remove_all}
use muser_console.Reply.{Response, Body, bytes, error_json}

-- How an exchange with an engine ends: its response, an error of the client, or the timeout.
pub data Exchange : Type 0 where
  answered : ℕ → HeaderMap → List ℕ → Exchange
  failed : Exchange
  timed_out : Exchange

pub record Call : Type 0 where
  pub instance_of : Instance
  pub streaming : Bool
  pub request : Request

pub record Wire : Type 0 where
  -- `text.parse::<Uri>().ok()`
  pub parse_uri : Text → Option Uri
  -- `state.client(instance).request(request)` under the timeout of its route
  pub exchange : Call → Exchange

abbrev pub hop_by_hop : List Text
hop_by_hop =
    codes "connection"
    ∷ (codes "keep-alive"
        ∷ (codes "proxy-authenticate"
            ∷ (codes "proxy-authorization"
                ∷ (codes "proxy-connection"
                    ∷ (codes "te"
                        ∷ (codes "trailer"
                            ∷ (codes "transfer-encoding" ∷ (codes "upgrade" ∷ []))))))))

-- `to_ascii_lowercase`
abbrev pub lower : ℕ → ℕ
lower c = if leb 65 c && leb c 90 then c + 32 else c

abbrev pub tokens : Text → List Text
tokens value = retain (λ t. not (text_eq t [])) (map (λ t. map lower (trim t)) (split value b','))

module _ (http : Http) where
  -- the headers that the Connection header names
  abbrev pub connection_named : List (List ℕ) → List Text
  connection_named [] = []
  connection_named (value ∷ rest) = elim (http.to_str value) [
    | none ↦ connection_named rest
    | some text ↦ tokens text ++ connection_named rest
  ]

  unfoldable pub strip_hop_by_hop : HeaderMap → HeaderMap
  strip_hop_by_hop headers =
      remove_all (remove_all headers (connection_named (get_all headers (codes "connection"))))
        hop_by_hop

  unfoldable pub sanitize_request_headers : HeaderMap → HeaderMap
  unfolding strip_hop_by_hop
  sanitize_request_headers headers =
      remove
        (remove
          (remove
            (remove (remove (strip_hop_by_hop headers) (codes "authorization")) (codes "cookie"))
            (codes "x-csrf-token"))
          (codes "host"))
        (codes "accept-encoding")

  unfoldable pub sanitize_response_headers : HeaderMap → HeaderMap
  unfolding strip_hop_by_hop
  sanitize_response_headers headers = remove (strip_hop_by_hop headers) (codes "set-cookie")

abbrev pub unreachable_response : Instance → Response
unreachable_response i =
    error_json 502 (codes "upstream_unreachable")
      (codes "instance '" ++ (i.name ++ codes "' is unreachable"))

module _ (http : Http) where
  -- the answer to the browser by how the exchange ended
  abbrev pub relayed : Instance → Exchange → Response
  relayed i (answered status headers body) = record {
    status = status;
    headers = sanitize_response_headers http headers;
    body = bytes body;
  }
  relayed i failed = unreachable_response i
  relayed i timed_out = unreachable_response i

module _ (http : Http) (wire : Wire) where
  -- the request for the engine, `none` where its URI or its Host cannot be built
  unfoldable pub upstream_request : Instance → Request → Text → Option Request
  unfolding sanitize_request_headers
  upstream_request i request path_and_query = do
    uri ← wire.parse_uri (i.base_url ++ path_and_query)
    host ← http.header_value i.authority
    some (record {
      method = request.method;
      uri = uri;
      headers =
          insert (insert (sanitize_request_headers http request.headers) (codes "host") host)
            (codes "authorization") i.bearer;
      body = request.body;
    })

  -- what was sent, and the answer to the browser
  unfoldable pub forward : Instance → Request → Bool → Text → List Call × Response
  unfolding upstream_request sanitize_response_headers
  forward i request streaming path_and_query = elim (upstream_request i request path_and_query) [
    | none ↦ ([], unreachable_response i)
    | some upstream ↦
        let call : Call = record { instance_of = i; streaming = streaming; request = upstream } in
        (call ∷ [], relayed http i (wire.exchange call))
  ]
