-- ===== src/Proxy/Laws.antt =====
-- Which headers pass from the browser to an engine and back, in crates/console-server/src/proxy.rs.
use muser_console.Base.{
  ℕ, Bool, true, false, ◌||◌, Text, codes, text_eq, text_eq_iff, List, [], ◌∷◌, ◌++◌, some,
  Bool-cases, Option-cases, ◌≡◌, refl, sym, ap, ◌∙◌, inl, inr, arith, if◌then◌else◌,
}
use muser_console.Config.Types.{Instance}
use muser_console.Http.{Http, HeaderMap, Request, get_all, insert}
use muser_console.Http.Laws.{
  names, remove_all, remove_all-append, remove_all-insert, names-append, get_all-remove_all,
  get_all-insert, get_all-remove,
}
use muser_console.Reply.{bytes}
use muser_console.Proxy.{
  answered, Wire, hop_by_hop, connection_named, strip_hop_by_hop, sanitize_request_headers,
  sanitize_response_headers, upstream_request, relayed, forward,
}

-- what the console answers for itself: neither its own credentials nor the browser's go on
abbrev pub own_names : List Text
own_names =
    codes "authorization"
    ∷ (codes "cookie" ∷ (codes "x-csrf-token" ∷ (codes "host" ∷ (codes "accept-encoding" ∷ []))))

module _ (http : Http) where
  -- the names that do not pass one hop
  abbrev pub hop_names : HeaderMap → List Text
  hop_names headers = connection_named http (get_all headers (codes "connection")) ++ hop_by_hop

  strip_hop_by_hop-remove_all :
      (headers : HeaderMap) → strip_hop_by_hop http headers ≡ remove_all headers (hop_names headers)
  unfolding strip_hop_by_hop
  strip_hop_by_hop-remove_all headers = sym (
      remove_all-append (connection_named http (get_all headers (codes "connection"))) hop_by_hop
        headers)

  sanitize_request_headers-remove_all :
      (headers : HeaderMap)
      → sanitize_request_headers http headers
        ≡ remove_all (remove_all headers (hop_names headers)) own_names
  unfolding sanitize_request_headers
  sanitize_request_headers-remove_all headers =
      ap (λ h. remove_all h own_names) (strip_hop_by_hop-remove_all headers)

  -- The values under a name once the request is sanitised.
  get_all-sanitize :
      (headers : HeaderMap) (name : Text)
      → get_all (sanitize_request_headers http headers) name ≡ (
          if names own_names name || names (hop_names headers) name
          then []
          else get_all headers name)
  get_all-sanitize headers name = rw (sanitize_request_headers-remove_all headers) (
      ground (
        arith,
        get_all-remove_all own_names name (remove_all headers (hop_names headers)),
        get_all-remove_all (hop_names headers) name headers,
      ))

  -- What an engine is sent carries, under each name: as its authorization the bearer of its instance, as its
  -- host the authority of its instance, nothing under a hop-by-hop name, under a name that the Connection
  -- header lists, or under one of the browser's own (cookie, CSRF token, encoding), and under every other name
  -- the values of the request.
  pub upstream_request-get_all :
      (wire : Wire) (i : Instance) (request up : Request) (target : Text)
      → upstream_request http wire i request target ≡ some up
      → (host : List ℕ) × (http.header_value i.authority ≡ some host)
        × ((name : Text)
            → get_all up.headers name ≡ (
                if text_eq name (codes "authorization")
                then i.bearer ∷ []
                else if text_eq name (codes "host")
                then host ∷ []
                else if names own_names name || names (hop_names request.headers) name
                then []
                else get_all request.headers name))
  unfolding upstream_request
  upstream_request-get_all wire i request up target h =
      elim (Option-cases (wire.parse_uri (i.base_url ++ target))) [
        | inl bad ↦ cc (rw (bad, upstream_request) at h)
        | inr (uri, parsed) ↦ elim (Option-cases (http.header_value i.authority)) [
          | inl bad ↦ cc (rw (parsed, upstream_request, bad) at h)
          | inr (host, valued) ↦
              let sent : HeaderMap =
                insert (insert (sanitize_request_headers http request.headers) (codes "host") host)
                  (codes "authorization") i.bearer in
              let made : some (record {
                method = request.method;
                uri = uri;
                headers = sent;
                body = request.body;
              })
                  ≡ some up =
                rw (parsed, upstream_request, valued) at h in
              let e : up.headers ≡ sent = cc made in
              (
                host,
                valued,
                λ name. rw e (
                    ground (
                      arith,
                      get_all-insert (codes "authorization") name i.bearer (
                          insert (sanitize_request_headers http request.headers) (codes "host")
                            host),
                      get_all-insert (codes "host") name host
                          (sanitize_request_headers http request.headers),
                      get_all-sanitize request.headers name,
                    )),
              )
        ]
      ]

  hop_names-insert :
      (headers : HeaderMap) (name : Text) (value : List ℕ)
      → names own_names name ≡ true
      → hop_names (insert headers name value) ≡ hop_names headers
  hop_names-insert headers name value own =
      let apart : text_eq (codes "connection") name ≡ false =
        elim (Bool-cases (text_eq (codes "connection") name)) [
          | inr e ↦ e
          | inl e ↦ cc (rw (← (text_eq_iff (codes "connection") name).0 e) at own)
        ] in
      ap (λ vs. connection_named http vs ++ hop_by_hop)
        (ground (arith, get_all-insert name (codes "connection") value headers, apart))

  sanitize_request_headers-insert :
      (headers : HeaderMap) (name : Text) (value : List ℕ)
      → names own_names name ≡ true
      → sanitize_request_headers http (insert headers name value)
        ≡ sanitize_request_headers http headers
  sanitize_request_headers-insert headers name value own =
      sanitize_request_headers-remove_all (insert headers name value)
      ∙ sym (
          remove_all-append (hop_names (insert headers name value)) own_names
            (insert headers name value))
      ∙ ap (λ ns. remove_all (insert headers name value) (ns ++ own_names))
          (hop_names-insert headers name value own)
      ∙ remove_all-insert (hop_names headers ++ own_names) name value headers
          (ground (arith, names-append (hop_names headers) own_names name, own))
      ∙ remove_all-append (hop_names headers) own_names headers
      ∙ sym (sanitize_request_headers-remove_all headers)

  -- The credentials of the browser reach no engine: whatever stands in the request under `authorization`,
  -- `cookie`, `x-csrf-token`, `host` or `accept-encoding`, the same is sent to the engine and the same is
  -- answered.
  pub forward-blind :
      (wire : Wire) (i : Instance) (request : Request) (streaming : Bool) (target name : Text)
      (value : List ℕ)
      → names own_names name ≡ true
      → forward http wire i
          (record request { headers = insert request.headers name value })
          streaming
          target
        ≡ forward http wire i request streaming target
  unfolding forward
  forward-blind wire i request streaming target name value own =
      rw (forward, upstream_request, sanitize_request_headers-insert request.headers name value own)
        refl

  -- An engine's answer passes with its status and its body, and with its headers except those of one hop and
  -- the cookies it would set.
  pub relayed-get_all :
      (i : Instance) (status : ℕ) (headers : HeaderMap) (body : List ℕ) (name : Text)
      → let reply = relayed http i (answered status headers body) in
        (reply.status ≡ status)
        × (reply.body ≡ bytes body)
        × (get_all reply.headers name ≡ (
            if text_eq name (codes "set-cookie") || names (hop_names headers) name
            then []
            else get_all headers name))
  unfolding sanitize_response_headers
  relayed-get_all i status headers body name = (
    refl,
    refl,
    rw (sanitize_response_headers, strip_hop_by_hop-remove_all headers)
        (ground (
          arith,
          get_all-remove (codes "set-cookie") name (remove_all headers (hop_names headers)),
          get_all-remove_all (hop_names headers) name headers,
        )),
  )
