-- ===== src/Stream/Laws.antt =====
-- Who is upgraded to a stream, and what a prober learns, in crates/console-server/src/ws.rs.
use muser_console.Base.{
  ℕ, ◌+◌, ◌<◌, Bool, true, false, Text, codes, List, ◌++◌, Option, none, some, ◌≡◌, ◌↔◌, refl, sym,
  ap, ◌∙◌, inl,
}
use muser_console.Base.Cut.{Lacks}
use muser_console.Config.Types.{Instance, instance_named}
use muser_console.Http.{Http, Uri, Request, path, query}
use muser_console.State.Types.{AppState, ticket_ttl}
use muser_console.State.Tickets.{mint_ticket, consume_ticket}
use muser_console.State.Tickets.Laws.{
  Redeemable, consume_ticket_iff, mint-consume_iff, refused_ticket, spent-Redeemable,
}
use muser_console.Reply.{Response, auth_required, mutation_rejection, rejection, unless_rejected}
use muser_console.Reply.Laws.{mutation_rejection-SameButSessions}
use muser_console.Proxy.{Wire}
use muser_console.Routes.Origin.{split_instance}
use muser_console.Routes.Proxied.{instance_proxied}
use muser_console.Stream.{
  StreamQuery, refused, parsed, streamed, parse_stream_query, ticket_value, ticket_answer,
  on_upgrade, upgraded, stream_for, stream_instance, mint_response, mint_instance,
}
use muser_console.Stream.Query.{IsTicketQuery, parse_stream_query_iff}

upgraded_iff :
    (name : Text) (r : AppState × Bool) → ((upgraded name r).1 ≡ on_upgrade name) ↔ (r.1 ≡ true)
upgraded_iff name (s, true) = (λ h. refl, λ h. refl)
upgraded_iff name (s, false) = (λ h. cc, λ h. cc)

opened : (name : Text) (r : AppState × Bool) → r.1 ≡ true → upgraded name r ≡ (r.0, on_upgrade name)
opened name (s, true) h = refl
opened name (s, false) h = cc

-- A stream to an instance is opened if and only if the query carries one ticket that the store holds for that
-- instance and that has not expired.
pub stream_for_iff :
    (s : AppState) (uri : Uri) (name q : Text) (now : ℕ)
    → query uri ≡ some q
    → ((stream_for s uri name now).1 ≡ on_upgrade name)
      ↔ ((ticket : Text) × IsTicketQuery q ticket × Redeemable ticket name now s.tickets)
unfolding stream_for
stream_for_iff s uri name q now has = go (parse_stream_query (some q)) refl
  where
    go :
        (r : _)
        → parse_stream_query (some q) ≡ r
        → ((stream_for s uri name now).1 ≡ on_upgrade name)
          ↔ ((ticket : Text) × IsTicketQuery q ticket × Redeemable ticket name now s.tickets)
    go refused e = (
      λ h. cc (rw (stream_for, has, e) at h),
      λ (ticket, k, _). cc (sym e ∙ (parse_stream_query_iff q ticket).1 k),
    )
    go (parsed none) e = (
      λ h. cc (rw (stream_for, has, e) at h),
      λ (ticket, k, _). cc (sym e ∙ (parse_stream_query_iff q ticket).1 k),
    )
    go (parsed (some t)) e =
        let (there, back) = upgraded_iff name (consume_ticket s t name now) in
        (
          λ h. (
            t,
            (parse_stream_query_iff q t).0 e,
            (consume_ticket_iff s t name now).0 (there (rw (stream_for, has, e) at h)),
          ),
          λ (ticket, k, r).
              let same : parsed (some ticket) ≡ parsed (some t) =
                sym ((parse_stream_query_iff q ticket).1 k) ∙ e in
              let tt' : ticket ≡ t = cc same in
              rw (stream_for, has, e) (back ((consume_ticket_iff s t name now).1 (rw tt' at r))),
        )

-- Who probes `/i/{name}/stream` without a ticket that the store holds for the name learns nothing about the
-- names: with the same query, every name that a path spells gets the same answer and leaves the same state,
-- configured or not.
pub stream_instance-blind :
    (s : AppState) (u v : Uri) (n m behind_n behind_m : Text) (now : ℕ)
    → split_instance (path u) ≡ some (n, behind_n)
    → split_instance (path v) ≡ some (m, behind_m)
    → query u ≡ query v
    → ((ticket : Text) → ¬ Redeemable ticket n now s.tickets)
    → ((ticket : Text) → ¬ Redeemable ticket m now s.tickets)
    → stream_instance s u now ≡ stream_instance s v now
unfolding stream_instance stream_for
stream_instance-blind s u v n m behind_n behind_m now at_u at_v same no_n no_m =
    rw (stream_instance, at_u, at_v, stream_for, same) (go (parse_stream_query (query v)))
  where
    go : (r : StreamQuery) → streamed s n now r ≡ streamed s m now r
    go refused = refl
    go (parsed none) = refl
    go (parsed (some c)) =
        rw (refused_ticket s c n now (no_n c), refused_ticket s c m now (no_m c)) refl

module _ (http : Http) where
  -- Who is not authorised learns nothing about the names of the instances from the other routes below
  -- `/i/` either: the answer, the state and what is sent to an engine (nothing) do not depend on the path.
  pub instance_routes-blind :
      (wire : Wire) (s : AppState) (request : Request) (u v : Uri) (streaming : Bool)
      (entropy : Option (List ℕ)) (now minted : ℕ) (to_proxy to_mint : Response)
      → (rejection http s request now).1 ≡ some to_proxy
      → (mutation_rejection http s request.headers now).1 ≡ some to_mint
      → (instance_proxied http wire s (record request { uri = u }) streaming now
          ≡ instance_proxied http wire s (record request { uri = v }) streaming now)
        × (mint_instance http s (record request { uri = u }) entropy now minted
            ≡ mint_instance http s (record request { uri = v }) entropy now minted)
  unfolding instance_proxied mint_instance rejection
  instance_routes-blind wire s request u v streaming entropy now minted to_proxy to_mint h k = (
    rw (instance_proxied, unless_rejected, rejection, h) refl,
    rw (mint_instance, unless_rejected, k) refl,
  )

  minted_answer :
      (s : AppState) (request : Request) (i : Instance) (behind : Text) (entropy : Option (List ℕ))
      (authorised minted : ℕ)
      → (mutation_rejection http s request.headers authorised).1 ≡ none
      → split_instance (path request.uri) ≡ some (i.name, behind)
      → instance_named s.config i.name ≡ some i
      → mint_instance http s request entropy authorised minted
        ≡ ticket_answer (
            mint_ticket http
              (mutation_rejection http s request.headers authorised).0
              i.name
              entropy
              minted)
  unfolding mint_instance mint_response
  minted_answer s request i behind entropy authorised minted ok_ at named =
      let same : (mutation_rejection http s request.headers authorised).0.config ≡ s.config =
        ap (λ (x : AppState). x.config)
          (mutation_rejection-SameButSessions http s request.headers authorised) in
      rw (mint_instance, unless_rejected, ok_, at, same, named, mint_response) refl

  streamed_answer :
      (s : AppState) (uri : Uri) (name there ticket : Text) (now : ℕ)
      → split_instance (path uri) ≡ some (name, there)
      → query uri ≡ some (codes "ticket=" ++ ticket)
      → Lacks b'&' ticket
      → stream_instance s uri now ≡ upgraded name (consume_ticket s ticket name now)
  unfolding stream_instance stream_for
  streamed_answer s uri name there ticket now at has lacks =
      rw
        (
          stream_instance,
          at,
          stream_for,
          has,
          (parse_stream_query_iff (codes "ticket=" ++ ticket) ticket).1 (inl (refl, lacks)),
        )
        refl

  -- A ticket buys one stream: for an authorised request to the ticket route of a configured instance, the
  -- answer is a fresh ticket; presented within thirty seconds at that instance's stream it upgrades, and
  -- presented again, at any time, it is refused. A ticket's text has no ampersand.
  pub mint_instance-stream_instance :
      (s : AppState) (request : Request) (i : Instance) (behind there : Text) (bytes : List ℕ)
      (authorised minted now later : ℕ) (uri : Uri)
      → (mutation_rejection http s request.headers authorised).1 ≡ none
      → split_instance (path request.uri) ≡ some (i.name, behind)
      → instance_named s.config i.name ≡ some i
      → split_instance (path uri) ≡ some (i.name, there)
      → query uri ≡ some (codes "ticket=" ++ http.encode bytes)
      → Lacks b'&' (http.encode bytes)
      → now < minted + ticket_ttl
      → let (s', reply) = mint_instance http s request (some bytes) authorised minted in
        let (s'', answer) = stream_instance s' uri now in
        (reply ≡ ticket_value (http.encode bytes))
        × (answer ≡ on_upgrade i.name)
        × ((stream_instance s'' uri later).1 ≡ auth_required)
  unfolding mint_ticket
  mint_instance-stream_instance s request i behind there bytes authorised minted now later uri ok_
        at_mint named at_stream has lacks fresh =
      let r = mutation_rejection http s request.headers authorised in
      let ticket = http.encode bytes in
      let s1 = (mint_ticket http r.0 i.name (some bytes) minted).0 in
      let taken : (consume_ticket s1 ticket i.name now).1 ≡ true =
        (mint-consume_iff http r.0 i.name i.name bytes minted now).1 (refl, fresh) in
      let s2 = (consume_ticket s1 ticket i.name now).0 in
      let refusal =
        refused_ticket s2 ticket i.name later
          (spent-Redeemable s1 ticket i.name i.name now later taken) in
      rw
        (
          minted_answer s request i behind (some bytes) authorised minted ok_ at_mint named,
          streamed_answer s1 uri i.name there ticket now at_stream has lacks,
          opened i.name (consume_ticket s1 ticket i.name now) taken,
          streamed_answer s2 uri i.name there ticket later at_stream has lacks,
          refusal,
        )
        (refl, refl, refl)
