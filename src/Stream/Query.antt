-- ===== src/Stream/Query.antt =====
-- Which queries `parse_stream_query` of crates/console-server/src/ws.rs accepts.
use muser_console.Base.{
  Text, codes, text_eq, text_eq→eq, split, split_once, List, [], ◌∷◌, ◌++◌, none, some, unwrap_or,
  Bool-cases, Option-cases, ◌≡◌, ◌↔◌, ◌⊎◌, refl, sym, ap, subst, ◌∙◌, inl, inr,
}
use muser_console.Base.Cut.{Lacks, split_once-Lacks, split_with-cases, split_with-one}
use muser_console.Stream.{refused, parsed, query_pairs, parse_stream_query}

-- `ticket=` and the ticket, or the bare word for an empty one
abbrev pub IsTicketQuery : Text → Text → Type 0
IsTicketQuery q ticket =
    ((q ≡ codes "ticket=" ++ ticket) × Lacks b'&' ticket) ⊎ ((q ≡ codes "ticket") × (ticket ≡ []))

one_pair :
    (p ticket : Text)
    → query_pairs (p ∷ []) none ≡ parsed (some ticket)
    → (p ≡ codes "ticket=" ++ ticket) ⊎ ((p ≡ codes "ticket") × (ticket ≡ []))
one_pair p ticket h = elim (Option-cases (split_once p b'=')) [
  | inl e ↦ elim (Bool-cases (text_eq p (codes "ticket"))) [
    | inl f ↦
        let made : parsed (some []) ≡ parsed (some ticket) = rw (query_pairs, e, f) at h in
        let t : [] ≡ ticket = cc made in inr (text_eq→eq p (codes "ticket") f, sym t)
    | inr f ↦ cc (rw (query_pairs, e, f) at h)
  ]
  | inr ((key, value), e) ↦ elim (Bool-cases (text_eq key (codes "ticket"))) [
    | inl f ↦
        let made : parsed (some value) ≡ parsed (some ticket) = rw (query_pairs, e, f) at h in
        let t : value ≡ ticket = cc made in
        let (name, k, p_is, _) = split_once-Lacks b'=' p [] key value e in
        inl (
          p_is
          ∙ ap (λ x. x ++ b'=' ∷ value) (sym k ∙ text_eq→eq key (codes "ticket") f)
          ∙ ap (λ x. codes "ticket=" ++ x) t)
    | inr f ↦ cc (rw (query_pairs, e, f) at h)
  ]
]

-- a second pair is refused
second_pair : (b : Text) (rest : List Text) (v : Text) → query_pairs (b ∷ rest) (some v) ≡ refused
second_pair b rest v =
    elim (Bool-cases (text_eq (unwrap_or (split_once b b'=') (b, [])).0 (codes "ticket"))) [
      | inl e ↦ rw (query_pairs, e) refl
      | inr e ↦ rw (query_pairs, e) refl
    ]

two_pairs : (a b : Text) (rest : List Text) → query_pairs (a ∷ (b ∷ rest)) none ≡ refused
two_pairs a b rest =
    let pair = unwrap_or (split_once a b'=') (a, []) in
    elim (Bool-cases (text_eq pair.0 (codes "ticket"))) [
      | inl e ↦ rw (query_pairs, e) (second_pair b rest pair.1)
      | inr e ↦ rw (query_pairs, e) refl
    ]

-- The query of a stream yields a ticket if and only if it is `ticket=` and that ticket, without a further
-- parameter, or the bare word `ticket` for the empty one: any other parameter, and a second one, is refused.
pub parse_stream_query_iff :
    (q ticket : Text)
    → (parse_stream_query (some q) ≡ parsed (some ticket)) ↔ IsTicketQuery q ticket
unfolding parse_stream_query
parse_stream_query_iff [] ticket = (λ h. cc, λ r. elim r [ inl (e, _) ↦ cc | inr (e, _) ↦ cc ])
parse_stream_query_iff (c ∷ q) ticket = (there (split_with-cases b'&' (c ∷ q) []), back)
  where
    there :
        ((split (c ∷ q) b'&' ≡ (c ∷ q) ∷ []) × Lacks b'&' (c ∷ q))
          ⊎ ((a : Text) × (b : Text) × (rest : List Text) × (split (c ∷ q) b'&' ≡ a ∷ (b ∷ rest)))
        → query_pairs (split (c ∷ q) b'&') none ≡ parsed (some ticket)
        → IsTicketQuery (c ∷ q) ticket
    there (inr (a, b, rest, e)) h = cc (sym (two_pairs a b rest) ∙ (rw e at h))
    there (inl (e, l)) h = elim (one_pair (c ∷ q) ticket (rw e at h)) [
      | inr bare ↦ inr bare
      | inl k ↦ inl (k, (subst (Lacks b'&') k l).1.1.1.1.1.1.1)
    ]

    back :
        IsTicketQuery (c ∷ q) ticket → query_pairs (split (c ∷ q) b'&') none ≡ parsed (some ticket)
    back (inl (e, l)) =
        rw
          (
            e,
            split_with-one b'&' (codes "ticket=" ++ ticket) []
                (refl, (refl, (refl, (refl, (refl, (refl, (refl, l))))))),
          )
          refl
    back (inr (e, k)) = rw (e, k) refl
