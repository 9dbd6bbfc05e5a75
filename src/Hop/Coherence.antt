-- ===== src/Hop/Coherence.antt =====
-- lib/proxy/hop-credentials.js, issueBundle, revoke and purge: the keys of the stored credentials
-- stay those of their routes.
use cli_provider_router.Prelude.{
  ℕ, suc, ◌≡◌, refl, sym, subst, ◌⊎◌, inl, inr, Bool, true, false, not, ◌&&◌, ◌==◌, Bool-cases,
  if◌then◌else◌, codes, Option, or_else, ◌>>=◌, List, [], ◌∷◌, ◌++◌, length, keep, All, All-append,
  Text, mem_text, ok, Result-cases, arith,
}
use cli_provider_router.Json.{Fields}
use cli_provider_router.Hop.Routes.{Route, normalize_route, fields_of}
use cli_provider_router.Hop.Keys.{join_parts, parts_of}
use cli_provider_router.Hop.Credentials.{
  Credential, Stored, absent, other_schema, credentials, load, is_revoked, revoke_at, map_result,
  keyed, keys_of, Bundle, Fresh, expiry_of, check_bundle, new_records, rotate, issue_bundle,
}
use cli_provider_router.Hop.Access.{
  is_selected, revoke_selected, reason_text, revoke, is_purged, purge,
}
use cli_provider_router.Hop.Returned.{IsRoute, normalize_route-IsRoute}
use cli_provider_router.Hop.Stable.{normalize_route-fields_of}
use cli_provider_router.Hop.Injective.{route_key-fields_of}
use cli_provider_router.Hop.Grants.{All-keep}
use cli_provider_router.Hop.Issued.{check_bundle-ok}

-- The key of a record is that of its route.
abbrev pub IsCoherent : Credential → Type 0
IsCoherent c = IsRoute c.route × (c.route_key ≡ join_parts (parts_of c.route))

abbrev pub Coherent : Stored → Type 0
Coherent (credentials cs) = All IsCoherent cs
Coherent _ = Unit

revoke_if :
    (t : Bool) (now : ℕ) (why : Text) (c : Credential)
    → IsCoherent c
    → IsCoherent (if t then revoke_at now why c else c)
revoke_if true now why c h = h
revoke_if false now why c h = h

rotate-Coherent :
    (keys : List Text) (now : ℕ) (cs : List Credential)
    → All IsCoherent cs
    → All IsCoherent (rotate keys now cs)
unfolding rotate
rotate-Coherent keys now [] a = tt
rotate-Coherent keys now (c ∷ cs) a = (
  revoke_if (mem_text c.route_key keys && not (is_revoked c)) now (codes "rotated") c a.0,
  rotate-Coherent keys now cs a.1,
)

revoke_selected-Coherent :
    (ids : List Text) (session_id why : Text) (now : ℕ) (cs : List Credential)
    → All IsCoherent cs
    → All IsCoherent (revoke_selected ids session_id why now cs)
unfolding revoke_selected
revoke_selected-Coherent ids session_id why now [] a = tt
revoke_selected-Coherent ids session_id why now (c ∷ cs) a = (
  revoke_if (is_selected ids session_id c) now why c a.0,
  revoke_selected-Coherent ids session_id why now cs a.1,
)

-- A pair of a route and its key.
abbrev HasKey : Route × Text → Type 0
HasKey (r, k) = IsRoute r × (k ≡ join_parts (parts_of r))

map_result-keyed :
    (routes : List Route) (rs : List (Route × Text))
    → All IsRoute routes
    → map_result keyed routes ≡ ok rs
    → All HasKey rs
map_result-keyed [] rs a h = let same : [] ≡ rs = ground arith in subst (All HasKey) same tt
map_result-keyed (r ∷ routes) rs a h = elim (Result-cases (map_result keyed routes)) [
  | inr x ↦ ground (arith, route_key-fields_of (fields_of r) r (normalize_route-fields_of r a.0))
  | inl (ps, e) ↦
      let k : Text = join_parts (parts_of r) in
      let same : (r, k) ∷ ps ≡ rs =
        ground (arith, route_key-fields_of (fields_of r) r (normalize_route-fields_of r a.0)) in
      subst (All HasKey) same ((a.0, refl), map_result-keyed routes ps a.1 e)
]

map_result-IsRoute :
    (inputs : List Fields) (routes : List Route)
    → map_result normalize_route inputs ≡ ok routes
    → All IsRoute routes
map_result-IsRoute [] routes h =
    let same : [] ≡ routes = ground arith in subst (All IsRoute) same tt
map_result-IsRoute (input ∷ inputs) routes h = elim (Result-cases (normalize_route input)) [
  | inr x ↦ ground arith
  | inl (r, er) ↦ elim (Result-cases (map_result normalize_route inputs)) [
    | inr x ↦ ground arith
    | inl (rs, e) ↦
        let same : r ∷ rs ≡ routes = ground arith in
        subst (All IsRoute) same
          (normalize_route-IsRoute input r er, map_result-IsRoute inputs rs e)
  ]
]

new_records-Coherent :
    (hash : Text → Text) (b : Bundle) (fresh : Fresh) (now expiry i : ℕ) (rs : List (Route × Text))
    → All HasKey rs
    → All IsCoherent (new_records hash b fresh now expiry i rs)
unfolding new_records
new_records-Coherent hash b fresh now expiry i [] a = tt
new_records-Coherent hash b fresh now expiry i ((r, k) ∷ rs) a =
    (a.0, new_records-Coherent hash b fresh now expiry (suc i) rs a.1)

check_bundle-load :
    (ttl now : ℕ) (b : Bundle) (inputs : List Fields) (stored : Stored) (rs : List (Route × Text))
    (cs : List Credential)
    → check_bundle ttl now b inputs stored ≡ ok (rs, cs)
    → load stored ≡ ok cs
unfolding check_bundle
check_bundle-load ttl now b inputs stored rs cs h = elim (Result-cases (load stored)) [
  | inl (ds, e) ↦ elim (Result-cases (map_result normalize_route inputs >>= map_result keyed)) [
    | inl (ps, p) ↦ ground arith
    | inr x ↦ ground arith
  ]
  | inr x ↦ elim (Result-cases (map_result normalize_route inputs >>= map_result keyed)) [
    | inl (ps, p) ↦ ground arith
    | inr x ↦ ground arith
  ]
]

pub load-Coherent :
    (stored : Stored) (cs : List Credential)
    → Coherent stored
    → load stored ≡ ok cs
    → All IsCoherent cs
unfolding load
load-Coherent absent cs h e = let same : [] ≡ cs = ground arith in subst (All IsCoherent) same tt
load-Coherent other_schema cs h e = ground arith
load-Coherent (credentials ds) cs h e =
    let same : ds ≡ cs = ground arith in subst (All IsCoherent) same h

issue_bundle-Coherent :
    (hash : Text → Text) (ttl now : ℕ) (b : Bundle) (fresh : Fresh) (inputs : List Fields)
    (stored : Stored)
    → Coherent stored
    → Coherent (issue_bundle hash ttl now b fresh inputs stored).0
unfolding issue_bundle
issue_bundle-Coherent hash ttl now b fresh inputs stored h =
    elim (Result-cases (check_bundle ttl now b inputs stored)) [
      | inr (x, e) ↦
          let same : (issue_bundle hash ttl now b fresh inputs stored).0 ≡ stored = ground arith in
          subst Coherent (sym same) h
      | inl ((rs, cs), e) ↦
          let new = new_records hash b fresh now (expiry_of b ttl now) 0 rs in
          let same : (issue_bundle hash ttl now b fresh inputs stored).0
              ≡ credentials (rotate (keys_of rs) now cs ++ new) =
            ground arith in
          let (routes, er, ek) = check_bundle-ok ttl now b inputs stored rs cs e in
          subst Coherent (sym same) (
            All-append IsCoherent (rotate (keys_of rs) now cs) new
              (rotate-Coherent (keys_of rs) now cs
                (load-Coherent stored cs h (check_bundle-load ttl now b inputs stored rs cs e)))
              (new_records-Coherent hash b fresh now (expiry_of b ttl now) 0 rs
                (map_result-keyed routes rs (map_result-IsRoute inputs routes er) ek)))
    ]

-- What revoke and purge leave is what was stored, or the credentials loaded from it, changed.
pub revoke-cases :
    (now : ℕ) (ids : List Text) (session_id why : Text) (stored : Stored)
    → (((revoke now ids session_id why stored).0 ≡ stored)
        × ((cs : List Credential)
            → load stored ≡ ok cs
            → length (keep (is_selected ids session_id) cs) ≡ 0))
      ⊎ ((cs : List Credential) × (load stored ≡ ok cs)
          × ((revoke now ids session_id why stored).0
              ≡ credentials (revoke_selected ids session_id (reason_text why) now cs)))
unfolding revoke
revoke-cases now ids session_id why stored = elim (Result-cases (load stored)) [
  | inr (x, e) ↦ inl (ground arith, λ cs l. ground arith)
  | inl (cs, e) ↦ elim (Bool-cases (length (keep (is_selected ids session_id) cs) == 0)) [
    | inl z ↦ inl (ground arith, λ ds l. ground arith)
    | inr n ↦ inr (cs, e, ground arith)
  ]
]

purge-cases :
    (now : ℕ) (before : Option ℕ) (stored : Stored)
    → ((purge now before stored).0 ≡ stored)
      ⊎ ((cs : List Credential) × (load stored ≡ ok cs)
          × ((purge now before stored).0
              ≡ credentials (keep (λ c. not (is_purged (or_else before now) c)) cs)))
unfolding purge
purge-cases now before stored = elim (Result-cases (load stored)) [
  | inr (x, e) ↦ inl (ground arith)
  | inl (cs, e) ↦
      elim (Bool-cases
        (length (keep (λ c. not (is_purged (or_else before now) c)) cs) == length cs)) [
          | inl z ↦ inl (ground arith)
          | inr n ↦ inr (cs, e, ground arith)
        ]
]

-- The keys of the stored credentials stay those of their routes through issueBundle, revoke and
-- purge, whether these succeed or fail.
pub operations-Coherent :
    (hash : Text → Text) (stored : Stored)
    → Coherent stored
    → ((ttl now : ℕ) (b : Bundle) (fresh : Fresh) (inputs : List Fields)
        → Coherent (issue_bundle hash ttl now b fresh inputs stored).0)
      × ((now : ℕ) (ids : List Text) (session_id why : Text)
          → Coherent (revoke now ids session_id why stored).0)
      × ((now : ℕ) (before : Option ℕ) → Coherent (purge now before stored).0)
operations-Coherent hash stored h = (
  λ ttl now b fresh inputs. issue_bundle-Coherent hash ttl now b fresh inputs stored h,
  λ now ids session_id why. elim (revoke-cases now ids session_id why stored) [
    | inl (same, z) ↦ subst Coherent (sym same) h
    | inr (cs, e, same) ↦ subst Coherent (sym same) (
        revoke_selected-Coherent ids session_id (reason_text why) now cs
          (load-Coherent stored cs h e))
  ],
  λ now before. elim (purge-cases now before stored) [
    | inl same ↦ subst Coherent (sym same) h
    | inr (cs, e, same) ↦
        subst Coherent (sym same) (All-keep IsCoherent _ cs (load-Coherent stored cs h e))
  ],
)
