-- ===== src/Hop/Returned.antt =====
-- lib/proxy/hop-credentials.js, normalizeRoute: what a route that it returns looks like.
use cli_provider_router.Prelude.{
  ◌≡◌, refl, sym, ◌∙◌, subst, ◌⊎◌, inl, inr, true, false, Bool-cases, Option, some, Option-cases,
  [], ◌∷◌, Text, codes, text_eq, text_eq_refl, mem_text, mem_text-cons, trim, lower, ok,
  Result-cases, arith,
}
use cli_provider_router.Json.{Json, null, str, Fields, lookup, to_text, truthy}
use cli_provider_router.Hop.Routes.{
  is_part, present, clean_part, lower_part, role_kinds, is_given, raw_role, role_of, normalize_role,
  Route, role_kind_of, sub_part, route_with, normalize_route,
}
use cli_provider_router.Hop.Parts.{IsLow, clean_part-IsPart, lower_part-IsPart}
use cli_provider_router.Hop.Normal.{IsName, IsAgent, role_of-Good}

-- What normalizeRoute returns.
abbrev pub Sides : Text → Text → Text → Type 0
Sides kind agent name =
    ((text_eq kind (codes "sub") ≡ true) × IsAgent name agent)
    ⊎ ((text_eq kind (codes "sub") ≡ false) × (agent ≡ []) × (name ≡ kind))

abbrev pub IsRoute : Route → Type 0
IsRoute r =
    (is_part r.cli ≡ true)
    × IsLow r.cli
    × (is_part r.provider_id ≡ true)
    × (is_part r.session_id ≡ true)
    × (mem_text r.role_kind role_kinds ≡ true)
    × IsName r.route_name
    × Sides r.role_kind r.agent_role r.route_name

present-truthy : (v : Json) → truthy v ≡ true → present (some v) ≡ v
present-truthy null h = ground arith
present-truthy (Json.bool b) h = refl
present-truthy (Json.num n) h = refl
present-truthy (str s) h = refl
present-truthy (Json.arr vs) h = refl
present-truthy (Json.obj fs) h = refl

lower_part-value :
    (v : Json) (label t : Text)
    → truthy v ≡ true
    → lower_part (some v) label ≡ ok t
    → t ≡ lower (trim (to_text v))
unfolding lower_part clean_part
lower_part-value v label t h e = ground (arith, present-truthy v h)

pub raw_role-given :
    (input : Fields) (v : Json)
    → lookup (codes "routeName") input ≡ some v
    → truthy v ≡ true
    → raw_role input ≡ lower (trim (to_text v))
unfolding raw_role
raw_role-given input v e h = ground arith

-- The name of a sub agent is the given one, which is the raw role, or that of the role. Either
-- way it is a name, and the agent role of the role is one under it.
sub_part-IsName :
    (input : Fields) (kind name : Text)
    → text_eq kind (codes "sub") ≡ true
    → (role_of (raw_role input)).is_valid ≡ true
    → sub_part kind
        (lookup (codes "routeName") input)
        (codes "routeName")
        (role_of (raw_role input)).route_name
        kind
      ≡ ok name
    → IsName name × IsAgent name (role_of (raw_role input)).agent_role
unfolding sub_part
sub_part-IsName input kind name k v h = elim (Option-cases (lookup (codes "routeName") input)) [
  | inl e ↦ ground (arith, role_of-Good (raw_role input) v)
  | inr (w, e) ↦ elim (Bool-cases (truthy w)) [
    | inl y ↦
        let low : lower_part (some w) (codes "routeName") ≡ ok name = ground arith in
        let same : raw_role input ≡ name =
          raw_role-given input w e y ∙ sym (lower_part-value w (codes "routeName") name y low) in
        let (part, is_low) = lower_part-IsPart (some w) (codes "routeName") name low in
        subst (λ t. IsName name × IsAgent name (role_of t).agent_role) (sym same)
          (
            (part, is_low, subst (λ t. (role_of t).is_valid ≡ true) same v),
            ground (arith, role_of-Good name (subst (λ t. (role_of t).is_valid ≡ true) same v)),
          )
    | inr n ↦ ground (arith, role_of-Good (raw_role input) v)
  ]
]

-- The agent role of a sub agent is the role's, or a given part.
sub_agent :
    (kind fallback agent : Text) (value : Option Json)
    → text_eq kind (codes "sub") ≡ true
    → sub_part kind value (codes "agentRole") fallback [] ≡ ok agent
    → (agent ≡ fallback) ⊎ ((is_part agent ≡ true) × IsLow agent)
unfolding sub_part
sub_agent kind fallback agent value k h = elim (Bool-cases (is_given value)) [
  | inl y ↦ inr (lower_part-IsPart value (codes "agentRole") agent (ground arith))
  | inr n ↦ ground arith
]

-- Beside a sub agent there is no agent role, and the kind is the name.
other_part :
    (kind label fallback other part : Text) (value : Option Json)
    → text_eq kind (codes "sub") ≡ false
    → sub_part kind value label fallback other ≡ ok part
    → part ≡ other
unfolding sub_part
other_part kind label fallback other part value k h = ground arith

pub kind-IsName :
    (kind : Text)
    → mem_text kind role_kinds ≡ true
    → text_eq kind (codes "sub") ≡ false
    → IsName kind
unfolding role_of text_eq mem_text
kind-IsName kind m k = elim (mem_text-cons kind (codes "main") (codes "sub" ∷ codes "aux" ∷ []) m) [
  | inl e ↦ subst IsName (sym e) (role_of-Good (codes "main") refl).1
  | inr m' ↦ elim (mem_text-cons kind (codes "sub") (codes "aux" ∷ []) m') [
    | inl e ↦ ground (arith, text_eq_refl (codes "sub"))
    | inr m'' ↦ elim (mem_text-cons kind (codes "aux") [] m'') [
      | inl e ↦ subst IsName (sym e) (role_of-Good (codes "aux") refl).1
      | inr m3 ↦ ground (arith, m3)
    ]
  ]
]

sub_part-Sides :
    (input : Fields) (kind agent name : Text)
    → (role_of (raw_role input)).is_valid ≡ true
    → mem_text kind role_kinds ≡ true
    → sub_part kind
        (lookup (codes "agentRole") input)
        (codes "agentRole")
        (role_of (raw_role input)).agent_role
        []
      ≡ ok agent
    → sub_part kind
        (lookup (codes "routeName") input)
        (codes "routeName")
        (role_of (raw_role input)).route_name
        kind
      ≡ ok name
    → IsName name × Sides kind agent name
sub_part-Sides input kind agent name v m ha hn = elim (Bool-cases (text_eq kind (codes "sub"))) [
  | inl k ↦
      let (is_name, is_agent) = sub_part-IsName input kind name k v hn in
      (is_name, inl (k, ground (arith, is_agent, sub_agent kind _ agent _ k ha)))
  | inr k ↦
      let same : name ≡ kind = other_part kind _ _ _ name _ k hn in
      (
        subst IsName (sym same) (kind-IsName kind m k),
        inr (k, other_part kind _ _ _ agent _ k ha, same),
      )
]

route_with-IsRoute :
    (input : Fields) (kind : Text) (r : Route)
    → (role_of (raw_role input)).is_valid ≡ true
    → mem_text kind role_kinds ≡ true
    → route_with input (role_of (raw_role input)) kind ≡ ok r
    → IsRoute r
unfolding route_with
route_with-IsRoute input kind r v m h =
    let role = role_of (raw_role input) in
    elim (Result-cases (lower_part (lookup (codes "cli") input) (codes "cli"))) [
      | inr x ↦ ground arith
      | inl (cli, ec) ↦
          elim (Result-cases
            (clean_part (lookup (codes "providerId") input) (codes "providerId") false)) [
              | inr x ↦ ground arith
              | inl (provider, ep) ↦
                  elim (Result-cases
                    (clean_part (lookup (codes "sessionId") input) (codes "sessionId") false)) [
                      | inr x ↦ ground arith
                      | inl (session, es) ↦
                          elim (Result-cases (
                            sub_part kind (lookup (codes "agentRole") input) (codes "agentRole")
                              role.agent_role [])) [
                                | inr x ↦ ground arith
                                | inl (agent, ea) ↦
                                    elim (Result-cases (
                                      sub_part kind (lookup (codes "routeName") input)
                                        (codes "routeName") role.route_name kind)) [
                                          | inr x ↦ ground arith
                                          | inl (name, en) ↦ ground (
                                            arith,
                                            sub_part-Sides input kind agent name v m ea en,
                                            lower_part-IsPart _ _ cli ec,
                                            clean_part-IsPart _ _ provider ep,
                                            clean_part-IsPart _ _ session es,
                                          )
                                        ]
                              ]
                    ]
            ]
    ]

pub normalize_route-IsRoute :
    (input : Fields) (r : Route) → normalize_route input ≡ ok r → IsRoute r
unfolding normalize_route normalize_role
normalize_route-IsRoute input r h =
    let role = role_of (raw_role input) in
    elim (Bool-cases role.is_valid) [
      | inr x ↦ ground arith
      | inl v ↦ elim (Result-cases (role_kind_of (lookup (codes "roleKind") input) role)) [
        | inr x ↦ ground arith
        | inl (kind, ek) ↦ elim (Bool-cases (mem_text kind role_kinds)) [
          | inr x ↦ ground arith
          | inl m ↦ route_with-IsRoute input kind r v m (ground arith)
        ]
      ]
    ]
