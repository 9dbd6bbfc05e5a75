-- ===== src/Examples/Hops.antt =====
-- lib/proxy/hop-credentials.js at concrete routes and tokens. The stand-in for SHA-256 writes two
-- digits before the token.
use cli_provider_router.Prelude.{
  ℕ, ◌≡◌, refl, ◌⊎◌, inl, inr, true, false, Option, none, some, List, [], ◌∷◌, ◌++◌, Text, codes,
  text_eq, mem_text, lower, starts_with, ok, arith,
}
use cli_provider_router.Json.{str, Fields, end, field, lookup, to_text, or_blank}
use cli_provider_router.Hop.Routes.{Route, role_of, raw_role, normalize_route, fields_of, is_part}
use cli_provider_router.Hop.Keys.{match_bearer, join_parts, parts_of, route_key, bearer_token}
use cli_provider_router.Hop.Credentials.{
  Credential, Stored, absent, credentials, load, Bundle, Fresh, Issued, check_bundle, new_records,
  issue_bundle,
}
use cli_provider_router.Hop.Access.{
  Reason, Verdict, valid, hex_bytes, exact_hash, newest_first, judge, judge_matches, is_selected,
  revoke_selected, verify, revoke, purge, authorize_managed_request,
}
use cli_provider_router.Hop.Stable.{normalize_route-again}
use cli_provider_router.Hop.Injective.{route_key-injective}
use cli_provider_router.Hop.Grants.{Some, Accepts, verify_sound}
use cli_provider_router.Hop.Unmanaged.{IsUnmanaged}
use cli_provider_router.Hop.Issued.{issue_bundle-verify}
use cli_provider_router.Hop.Coherence.{Coherent, operations-Coherent}
use cli_provider_router.Hop.Sessions.{revoke_session-verify, authorize_managed_request_lem}

abbrev worker_input : Fields
worker_input = field (codes "cli") (str (codes "Claude")) (
    field (codes "providerId") (str (codes " p1 ")) (
      field (codes "sessionId") (str (codes "direct-1"))
        (field (codes "routeName") (str (codes "Worker")) end)))

abbrev worker_route : Route
worker_route = record {
  cli = codes "claude";
  provider_id = codes "p1";
  session_id = codes "direct-1";
  role_kind = codes "sub";
  agent_role = codes "worker";
  route_name = codes "worker";
}

worker_normal : normalize_route worker_input ≡ ok worker_route
unfolding normalize_route role_of raw_role to_text lookup
worker_normal = refl

normalize_route-again_example : normalize_route (fields_of worker_route) ≡ ok worker_route
normalize_route-again_example = normalize_route-again worker_input worker_route worker_normal

worker_key : route_key worker_input ≡ ok (codes "claude|p1|direct-1|sub|worker|worker")
unfolding route_key normalize_route join_parts role_of raw_role to_text lookup
worker_key = refl

again_key : route_key (fields_of worker_route) ≡ ok (codes "claude|p1|direct-1|sub|worker|worker")
unfolding route_key normalize_route join_parts role_of raw_role to_text lookup
again_key = refl

route_key-injective_example :
    (r : Route) × (normalize_route worker_input ≡ ok r)
    × (normalize_route (fields_of worker_route) ≡ ok r)
route_key-injective_example =
    route_key-injective worker_input (fields_of worker_route)
      (codes "claude|p1|direct-1|sub|worker|worker") worker_key again_key

abbrev toy_hash : Text → Text
toy_hash t = codes "ab" ++ t

abbrev one_bundle : Bundle
one_bundle = record { expires_at = none; bundle_id = codes "b" }

abbrev seven : Fresh
seven = record { token = codes "77"; ids = λ i. codes "id" }

-- The one credential of the route, issued at time 100 until 150.
abbrev worker_credential : Credential
worker_credential = record {
  id = codes "id";
  bundle_id = codes "b";
  bundle_index = 0;
  route = worker_route;
  route_key = codes "claude|p1|direct-1|sub|worker|worker";
  token_hash = codes "ab77";
  issued_at = 100;
  expires_at = 150;
  revoked_at = none;
  revoke_reason = none;
}

abbrev held : Stored
held = credentials (worker_credential ∷ [])

abbrev issued_one : Issued
issued_one = record {
  bundle_id = codes "b";
  token = codes "77";
  issued_at = 100;
  expires_at = 150;
  credentials = worker_credential ∷ [];
}

abbrev accepted : Verdict
accepted = record {
  is_ok = true;
  is_managed = true;
  reason = valid;
  credential_id = some (codes "id");
}

held_accepts : verify toy_hash 120 worker_input (codes "77") held ≡ ok accepted
unfolding verify route_key normalize_route join_parts role_of raw_role to_text lookup load
    newest_first judge_matches judge exact_hash
held_accepts = refl

verify_sound_example :
    (r : Route) × (cs : List Credential) × (normalize_route worker_input ≡ ok r)
    × (load held ≡ ok cs)
    × Some (λ c. (c.route_key ≡ join_parts (parts_of r)) × Accepts toy_hash 120 (codes "77") c) cs
verify_sound_example =
    verify_sound toy_hash 120 worker_input (codes "77") held accepted held_accepts refl

issue_absent :
    (issue_bundle toy_hash 50 100 one_bundle seven (worker_input ∷ []) absent).1 ≡ ok issued_one
unfolding issue_bundle check_bundle new_records route_key normalize_route join_parts role_of
    raw_role to_text lookup load
issue_absent = refl

issue_bundle-verify_example :
    (v : Verdict) × (verify toy_hash 120 worker_input
        (codes "77")
        (issue_bundle toy_hash 50 100 one_bundle seven (worker_input ∷ []) absent).0
      ≡ ok v)
    × (v.is_ok ≡ true)
unfolding hex_bytes
issue_bundle-verify_example =
    issue_bundle-verify toy_hash 50 100 one_bundle seven (worker_input ∷ []) absent issued_one 0
      worker_input 120 issue_absent refl (omega arith) (omega arith) refl (λ e. ground (arith, e))

held-Coherent : Coherent held
unfolding is_part lower role_of join_parts mem_text text_eq
held-Coherent =
    (((refl, refl, refl, refl, refl, (refl, refl, refl), inl (refl, inr (refl, refl))), refl), tt)

operations-Coherent_example :
    ((ttl now : ℕ) (b : Bundle) (fresh : Fresh) (inputs : List Fields)
      → Coherent (issue_bundle toy_hash ttl now b fresh inputs held).0)
    × ((now : ℕ) (ids : List Text) (session_id why : Text)
        → Coherent (revoke now ids session_id why held).0)
    × ((now : ℕ) (before : Option ℕ) → Coherent (purge now before held).0)
operations-Coherent_example = operations-Coherent toy_hash held held-Coherent

abbrev revoked_verdict : Verdict
revoked_verdict = record {
  is_ok = false;
  is_managed = true;
  reason = Reason.revoked;
  credential_id = some (codes "id");
}

revoked_verify :
    verify toy_hash 120 worker_input (codes "77") (revoke 110 [] (codes "direct-1") [] held).0
    ≡ ok revoked_verdict
unfolding verify revoke revoke_selected is_selected route_key normalize_route join_parts role_of
    raw_role to_text lookup load newest_first judge_matches judge exact_hash
revoked_verify = refl

revoke_session-verify_example : revoked_verdict.is_ok ≡ false
revoke_session-verify_example =
    revoke_session-verify toy_hash held worker_input worker_route 110 120 [] (codes "77")
      revoked_verdict held-Coherent (omega arith) worker_normal revoked_verify

abbrev bearer_headers : Fields
bearer_headers = field (codes "authorization") (str (codes "Bearer 77")) end

authorized :
    authorize_managed_request toy_hash 120 true bearer_headers worker_input held ≡ ok accepted
unfolding authorize_managed_request bearer_token match_bearer verify route_key normalize_route
    join_parts role_of raw_role to_text lookup load newest_first judge_matches judge exact_hash
    starts_with
authorized = refl

authorize_managed_request_lem_example :
    ((r : Route) × (cs : List Credential) × (normalize_route worker_input ≡ ok r)
      × (load held ≡ ok cs)
      × Some
          (λ c.
            (c.route_key ≡ join_parts (parts_of r))
            × Accepts toy_hash 120 (bearer_token bearer_headers) c)
          cs)
    ⊎ ((true ≡ false)
        × (starts_with
              (codes "direct-")
              (to_text (or_blank (lookup (codes "sessionId") worker_input)))
            ≡ false)
        × IsUnmanaged worker_input held)
authorize_managed_request_lem_example =
    authorize_managed_request_lem toy_hash 120 true bearer_headers worker_input held accepted
      authorized refl
