-- ===== src/Tests/Routes.antt =====
-- The routes, the proxy and the streams at concrete inputs.
use muser_console.Base.{
  ℕ, false, ◌||◌, Text, codes, text_eq, List, [], ◌∷◌, none, some, ◌≡◌, refl, if◌then◌else◌,
}
use muser_console.Config.Types.{Instance}
use muser_console.Http.{HeaderMap, Uri, Request, get_all, insert}
use muser_console.Http.Laws.{names}
use muser_console.Reply.{bytes}
use muser_console.Proxy.{Wire, answered, upstream_request, relayed, forward}
use muser_console.Proxy.Laws.{
  own_names, hop_names, upstream_request-get_all, forward-blind, relayed-get_all,
}
use muser_console.Tests.Data.{plain}

abbrev pub gx : Instance
gx = record {
  name = codes "gx";
  base_url = codes "http://127.0.0.1:8000";
  authority = codes "127.0.0.1:8000";
  api_key = codes "k";
  bearer = codes "Bearer k";
  is_https = false;
}

abbrev pub wire : Wire
wire = record {
  parse_uri = λ t. some (record { authority = none; path_and_query = some t });
  exchange = λ c. answered 200 (c.request.headers) [];
}

abbrev pub headers : HeaderMap
headers =
    (codes "host", codes "console")
    ∷ ((codes "authorization", codes "Bearer key")
        ∷ ((codes "cookie", codes "a=b")
            ∷ ((codes "connection", codes "x-drop") ∷ ((codes "x-drop", codes "1") ∷ []))))

abbrev pub uri : Uri
uri = record { authority = none; path_and_query = some (codes "/i/gx/snapshot") }

abbrev pub request : Request
request = record { method = codes "GET"; uri = uri; headers = headers; body = [] }

abbrev upstream : Request
upstream = record {
  method = codes "GET";
  uri = record { authority = none; path_and_query = some (codes "http://127.0.0.1:8000/snapshot") };
  headers =
      (codes "authorization", codes "Bearer k") ∷ ((codes "host", codes "127.0.0.1:8000") ∷ []);
  body = [];
}

sent : upstream_request plain wire gx request (codes "/snapshot") ≡ some upstream
unfolding upstream_request
sent = refl

upstream_request-get_all_example :
    (host : List ℕ) × (plain.header_value gx.authority ≡ some host)
    × ((name : Text)
        → get_all upstream.headers name ≡ (
            if text_eq name (codes "authorization")
            then gx.bearer ∷ []
            else if text_eq name (codes "host")
            then host ∷ []
            else if names own_names name || names (hop_names plain headers) name
            then []
            else get_all headers name))
upstream_request-get_all_example =
    upstream_request-get_all plain wire gx request upstream (codes "/snapshot") sent

forward-blind_example :
    forward plain wire gx
      (record request { headers = insert headers (codes "cookie") (codes "c=d") })
      false
      (codes "/snapshot")
    ≡ forward plain wire gx request false (codes "/snapshot")
forward-blind_example =
    forward-blind plain wire gx request false (codes "/snapshot") (codes "cookie") (codes "c=d")
      refl

relayed-get_all_example :
    let reply = relayed plain gx (answered 200 headers (codes "body")) in
    (reply.status ≡ 200)
    × (reply.body ≡ bytes (codes "body"))
    × (get_all reply.headers (codes "x-drop") ≡ (
        if text_eq (codes "x-drop") (codes "set-cookie")
          || names (hop_names plain headers) (codes "x-drop")
        then []
        else get_all headers (codes "x-drop")))
relayed-get_all_example = relayed-get_all plain gx 200 headers (codes "body") (codes "x-drop")
