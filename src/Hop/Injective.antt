-- ===== src/Hop/Injective.antt =====
-- lib/proxy/hop-credentials.js, routeKey: different routes have different keys.
use cli_provider_router.Prelude.{
  ◌≡◌, refl, sym, ◌∙◌, inl, inr, true, List, [], ◌∷◌, ◌++◌, all, length, All, Text, ok,
  Result-cases, arith,
}
use cli_provider_router.Json.{Fields}
use cli_provider_router.Hop.Routes.{part_char, is_part, Route, normalize_route, fields_of}
use cli_provider_router.Hop.Keys.{encode_uri_component, join_parts, parts_of, route_key}
use cli_provider_router.Hop.Returned.{IsRoute, normalize_route-IsRoute}
use cli_provider_router.Hop.Stable.{kind-IsLow, normalize_route-fields_of}

abbrev IsWord : Text → Type 0
IsWord s = all part_char s ≡ true

encode-word : (s : Text) → IsWord s → encode_uri_component s ≡ s
unfolding encode_uri_component
encode-word [] h = refl
encode-word (c ∷ s) h = ground (arith, encode-word s)

-- A text of words between bars is cut in one way.
cut_once :
    (s t u v : Text) → IsWord s → IsWord t → s ++ (124 ∷ u) ≡ t ++ (124 ∷ v) → (s ≡ t) × (u ≡ v)
cut_once [] [] u v h k e = ground (arith, e)
cut_once [] (d ∷ t) u v h k e = ground (arith, e)
cut_once (c ∷ s) [] u v h k e = ground (arith, e)
cut_once (c ∷ s) (d ∷ t) u v h k e = ground (arith, cut_once s t u v)

join_words :
    (p q : Text) (ps : List Text)
    → IsWord p
    → join_parts (p ∷ q ∷ ps) ≡ p ++ (124 ∷ join_parts (q ∷ ps))
unfolding join_parts
join_words p q ps h = ground (arith, encode-word p h)

join_parts-injective :
    (ps qs : List Text)
    → All IsWord ps
    → All IsWord qs
    → length ps ≡ length qs
    → join_parts ps ≡ join_parts qs
    → ps ≡ qs
unfolding join_parts
join_parts-injective [] [] h k n e = refl
join_parts-injective [] (q ∷ qs) h k n e = ground arith
join_parts-injective (p ∷ ps) [] h k n e = ground arith
join_parts-injective (p ∷ []) (q ∷ []) h k n e =
    ground (arith, encode-word p h.0, encode-word q k.0)
join_parts-injective (p ∷ []) (q ∷ r ∷ qs) h k n e = ground arith
join_parts-injective (p ∷ r ∷ ps) (q ∷ []) h k n e = ground arith
join_parts-injective (p ∷ r ∷ ps) (q ∷ t ∷ qs) h k n e =
    let (same, rest) =
      cut_once p q (join_parts (r ∷ ps)) (join_parts (t ∷ qs)) h.0 k.0
        (sym (join_words p r ps h.0) ∙ e ∙ join_words q t qs k.0) in
    ground (arith, join_parts-injective (r ∷ ps) (t ∷ qs) h.1 k.1)

part-IsWord : (s : Text) → is_part s ≡ true → IsWord s
unfolding is_part
part-IsWord [] h = refl
part-IsWord (c ∷ s) h = ground arith

parts-Words : (r : Route) → IsRoute r → All IsWord (parts_of r)
parts-Words r g = ground (
  arith,
  part-IsWord r.cli,
  part-IsWord r.provider_id,
  part-IsWord r.session_id,
  part-IsWord r.role_kind,
  kind-IsLow r.role_kind,
  part-IsWord r.agent_role,
  part-IsWord r.route_name,
)

route_of_parts : (r s : Route) → parts_of r ≡ parts_of s → r ≡ s
route_of_parts r s e = ground (arith, e)

pub same_route :
    (r s : Route)
    → IsRoute r
    → IsRoute s
    → join_parts (parts_of r) ≡ join_parts (parts_of s)
    → r ≡ s
same_route r s g h e =
    route_of_parts r s
      (join_parts-injective (parts_of r) (parts_of s) (parts-Words r g) (parts-Words s h) refl e)

-- Two inputs that are given the same key are the same route.
pub route_key-injective :
    (a b : Fields) (k : Text)
    → route_key a ≡ ok k
    → route_key b ≡ ok k
    → (r : Route) × (normalize_route a ≡ ok r) × (normalize_route b ≡ ok r)
unfolding route_key
route_key-injective a b k ea eb = elim (Result-cases (normalize_route a)) [
  | inr x ↦ ground arith
  | inl (r, er) ↦ elim (Result-cases (normalize_route b)) [
    | inr x ↦ ground arith
    | inl (s, es) ↦
        let same : r ≡ s =
          same_route r s (normalize_route-IsRoute a r er) (normalize_route-IsRoute b s es)
            (ground arith) in
        (r, er, ground arith)
  ]
]

-- The key of a route that was returned is that of the input.
pub route_key-fields_of :
    (input : Fields) (r : Route)
    → normalize_route input ≡ ok r
    → route_key (fields_of r) ≡ ok (join_parts (parts_of r))
unfolding route_key
route_key-fields_of input r h =
    ground (arith, normalize_route-fields_of r (normalize_route-IsRoute input r h))
