-- ===== src/Hop/Access.antt =====
-- lib/proxy/hop-credentials.js: verify, revoke, purge and list of the credential store, and
-- authorizeManagedRequest. State, time and `hash` are as in Hop/Credentials.antt.
use Prim.Native.Nat.{◌*◌}
use cli_provider_router.Prelude.{
  ℕ, ◌+◌, ◌-◌, Bool, true, false, not, ◌&&◌, ◌||◌, Option, none, some, or_else, ltb, leb, ◌==◌,
  if◌then◌else◌, List, [], ◌∷◌, length, map, keep, find, Text, codes, text_eq, is_empty, mem_text,
  starts_with, is_digit, Result, ok, err, ◌>>=◌,
}
use cli_provider_router.Json.{Fields, lookup, to_text, or_blank}
use cli_provider_router.Hop.Routes.{HopError, fields_of, normalize_route}
use cli_provider_router.Hop.Keys.{route_key, bearer_token}
use cli_provider_router.Hop.Credentials.{
  Credential, Stored, credentials, load, is_revoked, revoke_at,
}

pub data Reason : Type 0 where
  invalid_route unmanaged_route revoked expired missing valid mismatch legacy_unmanaged_route :
      Reason

pub record Verdict : Type 0 where
  pub is_ok : Bool
  pub is_managed : Bool
  pub reason : Reason
  pub credential_id : Option Text

-- The value of a hexadecimal digit.
abbrev pub hex_value : ℕ → Option ℕ
hex_value c =
    if is_digit c
    then some (c - 48)
    else if leb 97 c && leb c 102
    then some (c - 87)
    else if leb 65 c && leb c 70
    then some (c - 55)
    else none

-- Buffer.from(text, 'hex'), which stops at the first pair that is not two digits.
unfoldable pub hex_bytes : Text → List ℕ
hex_bytes (c ∷ d ∷ s) =
    let rest = hex_bytes s in
    elim (hex_value c) [
      | none ↦ []
      | some h ↦ elim (hex_value d) [ none ↦ [] | some l ↦ (h * 16 + l) ∷ rest ]
    ]
hex_bytes _ = []

-- The comparison takes the same time wherever the bytes differ; its answer is equality.
unfoldable pub exact_hash : Text → Text → Bool
unfolding hex_bytes text_eq
exact_hash actual expected =
    length (hex_bytes actual) == length (hex_bytes expected)
    && ltb 0 (length (hex_bytes actual))
    && text_eq (hex_bytes actual) (hex_bytes expected)

-- `sort((a, b) => b.issuedAt - a.issuedAt)`, which is stable.
unfoldable pub insert_newest : Credential → List Credential → List Credential
insert_newest c [] = c ∷ []
insert_newest c (d ∷ cs) =
    let rest = insert_newest c cs in if leb d.issued_at c.issued_at then c ∷ d ∷ cs else d ∷ rest

unfoldable pub newest_first : List Credential → List Credential
unfolding insert_newest
newest_first [] = []
newest_first (c ∷ cs) = insert_newest c (newest_first cs)

abbrev pub refused : Bool → Reason → Option Text → Verdict
refused managed why id = record {
  is_ok = false;
  is_managed = managed;
  reason = why;
  credential_id = id;
}

abbrev pub is_active : Credential → Bool
is_active c = not (is_revoked c)

abbrev pub has_key : Text → Credential → Bool
has_key k c = text_eq c.route_key k

module _ (hash : Text → Text) where
  -- The verdict on the credential found for the route.
  unfoldable pub judge : ℕ → Text → Credential → Verdict
  judge now token c =
      if is_revoked c
      then refused true revoked (some c.id)
      else if leb c.expires_at now
      then refused true expired (some c.id)
      else if is_empty token
      then refused true missing (some c.id)
      else if exact_hash (hash token) c.token_hash
      then record { is_ok = true; is_managed = true; reason = valid; credential_id = some c.id }
      else refused true mismatch (some c.id)

  -- The first match that is not revoked, or else the first match.
  unfoldable pub judge_matches : ℕ → Text → List Credential → Verdict
  judge_matches now token [] = refused false unmanaged_route none
  judge_matches now token (c ∷ cs) = judge now token (or_else (find is_active (c ∷ cs)) c)

  unfoldable pub verify : ℕ → Fields → Text → Stored → Result HopError Verdict
  verify now input token stored = elim (normalize_route input) [
    | err e ↦ ok (refused false invalid_route none)
    | ok route ↦ route_key (fields_of route) >>= λ key.
        load stored >>= λ cs. ok (judge_matches now token (newest_first (keep (has_key key) cs)))
  ]

  -- A session of the direct mode may not fall back to a route without credentials.
  unfoldable pub authorize_managed_request :
      ℕ → Bool → Fields → Fields → Stored → Result HopError Verdict
  authorize_managed_request now require_managed headers context stored =
      verify now context (bearer_token headers) stored >>= λ result. ok (
        if not result.is_managed
          && not (
              require_managed
              || starts_with (codes "direct-")
                  (to_text (or_blank (lookup (codes "sessionId") context))))
        then record {
          is_ok = true;
          is_managed = false;
          reason = legacy_unmanaged_route;
          credential_id = none;
        }
        else result)

-- The credentials that a revocation selects: by identifier, or else by session.
unfoldable pub is_selected : List Text → Text → Credential → Bool
unfolding mem_text text_eq
is_selected ids session_id c =
    is_active c
    && (mem_text c.id ids
        || (length ids == 0 && not (is_empty session_id) && text_eq c.route.session_id session_id))

unfoldable pub revoke_selected : List Text → Text → Text → ℕ → List Credential → List Credential
unfolding is_selected
revoke_selected ids session_id why now [] = []
revoke_selected ids session_id why now (c ∷ cs) =
    (if is_selected ids session_id c then revoke_at now why c else c)
    ∷ revoke_selected ids session_id why now cs

-- `String(reason || 'revoked')`
abbrev pub reason_text : Text → Text
reason_text r = if is_empty r then codes "revoked" else r

-- The file is written only where something was revoked; the count is the answer.
unfoldable pub revoke : ℕ → List Text → Text → Text → Stored → Stored × Result HopError ℕ
unfolding load revoke_selected
revoke now ids session_id why stored = elim (load stored) [
  | err e ↦ (stored, err e)
  | ok cs ↦
      let count = length (keep (is_selected ids session_id) cs) in
      (
        if count == 0
            then stored
            else credentials (revoke_selected ids session_id (reason_text why) now cs),
        ok count,
      )
]

-- Credentials that were revoked by the cutoff.
abbrev pub is_purged : ℕ → Credential → Bool
is_purged cutoff c = is_revoked c && leb (or_else c.revoked_at 0) cutoff

unfoldable pub purge : ℕ → Option ℕ → Stored → Stored × Result HopError ℕ
unfolding load
purge now before stored = elim (load stored) [
  | err e ↦ (stored, err e)
  | ok cs ↦
      let next = keep (λ c. not (is_purged (or_else before now) c)) cs in
      (if length next == length cs then stored else credentials next, ok (length cs - length next))
]

-- Each listed credential with whether it is expired; the source leaves its hash out.
unfoldable pub list : ℕ → Bool → Stored → Result HopError (List (Credential × Bool))
unfolding load
list now include_revoked stored = load stored >>= λ cs.
    ok (map (λ c. (c, leb c.expires_at now)) (keep (λ c. include_revoked || is_active c) cs))
