-- ===== src/Hop/Stable.antt =====
-- lib/proxy/hop-credentials.js, normalizeRoute: a route that it returned, handed in again, is
-- returned as it is. The store depends on this, since routeKey normalizes routes that are normalized
-- already.
use cli_provider_router.Prelude.{
  ◌≡◌, refl, sym, subst, inl, inr, true, false, Bool-cases, some, [], ◌∷◌, Text, codes, text_eq,
  text_eq_sound, mem_text, lower, is_empty, ok, arith,
}
use cli_provider_router.Json.{str, Fields, lookup, to_text}
use cli_provider_router.Hop.Routes.{
  is_part, role_kinds, raw_role, role_of, normalize_role, Route, role_kind_of, sub_part, route_with,
  normalize_route, fields_of,
}
use cli_provider_router.Hop.Parts.{IsLow, trim-part, clean_part-str, lower_part-str}
use cli_provider_router.Hop.Normal.{IsName}
use cli_provider_router.Hop.Returned.{
  Sides, IsRoute, normalize_route-IsRoute, raw_role-given, kind-IsName,
}

pub part_given : (t : Text) → is_part t ≡ true → is_empty t ≡ false
unfolding is_part
part_given [] h = ground arith
part_given (c ∷ s) h = refl

-- The raw role of a route is its name.
raw_role-fields_of : (r : Route) → IsName r.route_name → raw_role (fields_of r) ≡ r.route_name
unfolding lookup text_eq to_text
raw_role-fields_of r n = ground (
  arith,
  raw_role-given (fields_of r) (str r.route_name) refl,
  part_given r.route_name n.0,
  trim-part r.route_name n.0,
)

sub-IsLow : (is_part (codes "sub") ≡ true) × IsLow (codes "sub")
unfolding is_part lower
sub-IsLow = (refl, refl)

pub kind-IsLow :
    (kind : Text) → mem_text kind role_kinds ≡ true → (is_part kind ≡ true) × IsLow kind
kind-IsLow kind m = elim (Bool-cases (text_eq kind (codes "sub"))) [
  | inl e ↦
      subst (λ t. (is_part t ≡ true) × IsLow t) (sym (text_eq_sound kind (codes "sub") e)) sub-IsLow
  | inr n ↦ ground (arith, kind-IsName kind m n)
]

agent_again :
    (kind agent name label : Text)
    → Sides kind agent name
    → sub_part kind (some (str agent)) label (role_of name).agent_role [] ≡ ok agent
unfolding sub_part
agent_again kind agent name label s = ground (arith, part_given agent, lower_part-str agent label)

name_again :
    (kind agent name label fallback : Text)
    → IsName name
    → Sides kind agent name
    → sub_part kind (some (str name)) label fallback kind ≡ ok name
unfolding sub_part
name_again kind agent name label fallback n s =
    ground (arith, part_given name, lower_part-str name label)

lookups :
    (r : Route)
    → (lookup (codes "cli") (fields_of r) ≡ some (str r.cli))
      × (lookup (codes "providerId") (fields_of r) ≡ some (str r.provider_id))
      × (lookup (codes "sessionId") (fields_of r) ≡ some (str r.session_id))
      × (lookup (codes "roleKind") (fields_of r) ≡ some (str r.role_kind))
      × (lookup (codes "agentRole") (fields_of r) ≡ some (str r.agent_role))
      × (lookup (codes "routeName") (fields_of r) ≡ some (str r.route_name))
unfolding lookup text_eq
lookups r = (refl, refl, refl, refl, refl, refl)

-- What a route's fields give does not depend on how they are looked up.
route_again :
    (fs : Fields) (r : Route)
    → (lookup (codes "cli") fs ≡ some (str r.cli))
      × (lookup (codes "providerId") fs ≡ some (str r.provider_id))
      × (lookup (codes "sessionId") fs ≡ some (str r.session_id))
      × (lookup (codes "roleKind") fs ≡ some (str r.role_kind))
      × (lookup (codes "agentRole") fs ≡ some (str r.agent_role))
      × (lookup (codes "routeName") fs ≡ some (str r.route_name))
    → raw_role fs ≡ r.route_name
    → IsRoute r
    → normalize_route fs ≡ ok r
unfolding normalize_route normalize_role route_with role_kind_of
route_again fs r l raw g = ground (
  arith,
  l,
  raw,
  g,
  kind-IsLow r.role_kind,
  lower_part-str r.role_kind (codes "roleKind"),
  lower_part-str r.cli (codes "cli"),
  clean_part-str r.provider_id (codes "providerId"),
  clean_part-str r.session_id (codes "sessionId"),
  agent_again r.role_kind r.agent_role r.route_name (codes "agentRole"),
  name_again r.role_kind r.agent_role r.route_name (codes "routeName")
      (role_of r.route_name).route_name,
)

pub normalize_route-fields_of : (r : Route) → IsRoute r → normalize_route (fields_of r) ≡ ok r
normalize_route-fields_of r g = route_again (fields_of r) r (lookups r) (raw_role-fields_of r g.5) g

-- A route that normalizeRoute returned is returned again as it is, whatever the input was.
pub normalize_route-again :
    (input : Fields) (r : Route)
    → normalize_route input ≡ ok r
    → normalize_route (fields_of r) ≡ ok r
normalize_route-again input r h = normalize_route-fields_of r (normalize_route-IsRoute input r h)
