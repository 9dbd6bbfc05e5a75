-- ===== src/Hop/Sessions.antt =====
-- lib/proxy/hop-credentials.js, revoke by session and authorizeManagedRequest: a session that was
-- revoked has no accepted token, and which requests pass without a credential.
use cli_provider_router.Prelude.{
  ℕ, ◌<◌, ◌≡◌, sym, ap, ◌∙◌, subst, ◌⊎◌, inl, inr, Bool, true, false, Bool-cases, if◌then◌else◌,
  List, [], ◌∷◌, length, keep, All, Text, text_eq_refl, is_empty, codes, mem_text, starts_with, ok,
  Result-cases, arith,
}
use cli_provider_router.Json.{Fields, lookup, to_text, or_blank}
use cli_provider_router.Hop.Routes.{Route, normalize_route}
use cli_provider_router.Hop.Keys.{join_parts, parts_of, bearer_token}
use cli_provider_router.Hop.Credentials.{Credential, Stored, load, is_revoked, revoke_at}
use cli_provider_router.Hop.Access.{
  Verdict, is_selected, revoke_selected, reason_text, revoke, is_active, verify,
  authorize_managed_request,
}
use cli_provider_router.Hop.Returned.{IsRoute, normalize_route-IsRoute}
use cli_provider_router.Hop.Stable.{part_given}
use cli_provider_router.Hop.Injective.{same_route}
use cli_provider_router.Hop.Grants.{Some, Accepts, verify_sound}
use cli_provider_router.Hop.Unmanaged.{IsUnmanaged, verify-IsUnmanaged}
use cli_provider_router.Hop.Coherence.{IsCoherent, Coherent, load-Coherent, revoke-cases}

-- Every credential of the key is revoked.
abbrev KeyRevoked : Text → Credential → Type 0
KeyRevoked k c = c.route_key ≡ k → is_revoked c ≡ true

session_of_key :
    (r : Route) (c : Credential)
    → IsRoute r
    → IsCoherent c
    → c.route_key ≡ join_parts (parts_of r)
    → c.route.session_id ≡ r.session_id
session_of_key r c g h e = ap (λ x. x.session_id) (same_route c.route r h.0 g (sym h.1 ∙ e))

is_selected-session :
    (r : Route) (c : Credential)
    → c.route.session_id ≡ r.session_id
    → is_empty r.session_id ≡ false
    → is_selected [] r.session_id c ≡ is_active c
unfolding is_selected mem_text
is_selected-session r c e n = ground (arith, text_eq_refl r.session_id)

revoke_at-KeyRevoked :
    (selected : Bool) (now : ℕ) (why k : Text) (c : Credential)
    → 0 < now
    → (c.route_key ≡ k → selected ≡ is_active c)
    → KeyRevoked k (if selected then revoke_at now why c else c)
revoke_at-KeyRevoked true now why k c p f e = ground arith
revoke_at-KeyRevoked false now why k c p f e = ground (arith, f e)

revoke_selected-KeyRevoked :
    (r : Route) (why : Text) (now : ℕ) (cs : List Credential)
    → IsRoute r
    → is_empty r.session_id ≡ false
    → 0 < now
    → All IsCoherent cs
    → All (KeyRevoked (join_parts (parts_of r))) (revoke_selected [] r.session_id why now cs)
unfolding revoke_selected
revoke_selected-KeyRevoked r why now [] g n p a = tt
revoke_selected-KeyRevoked r why now (c ∷ cs) g n p a = (
  revoke_at-KeyRevoked (is_selected [] r.session_id c) now why (join_parts (parts_of r)) c p
      (λ e. is_selected-session r c (session_of_key r c g a.0 e) n),
  revoke_selected-KeyRevoked r why now cs g n p a.1,
)

-- Where a revocation selects nothing, the session's credentials were revoked before.
none_selected :
    (r : Route) (cs : List Credential)
    → IsRoute r
    → is_empty r.session_id ≡ false
    → All IsCoherent cs
    → length (keep (is_selected [] r.session_id) cs) ≡ 0
    → All (KeyRevoked (join_parts (parts_of r))) cs
none_selected r [] g n a z = tt
none_selected r (c ∷ cs) g n a z = elim (Bool-cases (is_selected [] r.session_id c)) [
  | inl y ↦ ground arith
  | inr x ↦ (
    λ e. ground (arith, is_selected-session r c (session_of_key r c g a.0 e) n),
    none_selected r cs g n a.1 (ground arith),
  )
]

no_acceptance :
    (hash : Text → Text) (t : ℕ) (token k : Text) (cs : List Credential)
    → All (KeyRevoked k) cs
    → ¬ Some (λ c. (c.route_key ≡ k) × Accepts hash t token c) cs
no_acceptance hash t token k [] a s = s
no_acceptance hash t token k (c ∷ cs) a (inl (e, x)) = ground (arith, a.0 e)
no_acceptance hash t token k (c ∷ cs) a (inr s) = no_acceptance hash t token k cs a.1 s

revoke-KeyRevoked :
    (r : Route) (now : ℕ) (why : Text) (stored : Stored) (cs : List Credential)
    → IsRoute r
    → Coherent stored
    → 0 < now
    → load (revoke now [] r.session_id why stored).0 ≡ ok cs
    → All (KeyRevoked (join_parts (parts_of r))) cs
unfolding load
revoke-KeyRevoked r now why stored cs g h p e =
    let given = part_given r.session_id g.3 in
    elim (revoke-cases now [] r.session_id why stored) [
      | inl (same, z) ↦
          let l : load stored ≡ ok cs = ap load (sym same) ∙ e in
          none_selected r cs g given (load-Coherent stored cs h l) (z cs l)
      | inr (ds, l, same) ↦
          let changed : revoke_selected [] r.session_id (reason_text why) now ds ≡ cs =
            ground arith in
          subst (All (KeyRevoked (join_parts (parts_of r)))) changed (
            revoke_selected-KeyRevoked r (reason_text why) now ds g given p
              (load-Coherent stored ds h l))
    ]

-- After a session was revoked, at a time after 0, no token is accepted for any route of the session,
-- provided the stored keys are those of the stored routes.
pub revoke_session-verify :
    (hash : Text → Text) (stored : Stored) (input : Fields) (r : Route) (now t : ℕ)
    (why token : Text) (v : Verdict)
    → Coherent stored
    → 0 < now
    → normalize_route input ≡ ok r
    → verify hash t input token (revoke now [] r.session_id why stored).0 ≡ ok v
    → v.is_ok ≡ false
revoke_session-verify hash stored input r now t why token v h p er ev = elim (Bool-cases v.is_ok) [
  | inr n ↦ n
  | inl y ↦
      let (s, cs, es, ec, found) =
        verify_sound hash t input token (revoke now [] r.session_id why stored).0 v ev y in
      let same : s ≡ r = ground arith in
      absurd (
        no_acceptance hash t token (join_parts (parts_of s)) cs
          (subst (λ x. All (KeyRevoked (join_parts (parts_of x))) cs) (sym same)
            (revoke-KeyRevoked r now why stored cs (normalize_route-IsRoute input r er) h p ec))
          found)
]

-- A request that passes has a token that a stored credential of its route accepts: one not revoked,
-- not expired, with the token's hash. Or else none is required, the text of its sessionId does not
-- start with direct-, and it names no valid route or one whose key no stored credential has.
pub authorize_managed_request_lem :
    (hash : Text → Text) (now : ℕ) (required : Bool) (headers context : Fields) (stored : Stored)
    (v : Verdict)
    → authorize_managed_request hash now required headers context stored ≡ ok v
    → v.is_ok ≡ true
    → ((r : Route) × (cs : List Credential) × (normalize_route context ≡ ok r)
        × (load stored ≡ ok cs)
        × Some
            (λ c.
              (c.route_key ≡ join_parts (parts_of r)) × Accepts hash now (bearer_token headers) c)
            cs)
      ⊎ ((required ≡ false)
          × (starts_with (codes "direct-") (to_text (or_blank (lookup (codes "sessionId") context)))
              ≡ false)
          × IsUnmanaged context stored)
unfolding authorize_managed_request
authorize_managed_request_lem hash now required headers context stored v h y =
    let token = bearer_token headers in
    elim (Result-cases (verify hash now context token stored)) [
      | inr x ↦ ground arith
      | inl (w, e) ↦ elim (Bool-cases w.is_ok) [
        | inl accepted ↦ inl (verify_sound hash now context token stored w e accepted)
        | inr n ↦
            let unmanaged : w.is_managed ≡ false = ground arith in
            inr (
              ground arith,
              ground arith,
              verify-IsUnmanaged hash now context token stored w e unmanaged,
            )
      ]
    ]
