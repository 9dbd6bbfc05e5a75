-- ===== src/Hop/Credentials.antt =====
-- lib/proxy/hop-credentials.js, createHopCredentialStore and authorizeManagedRequest. The state is
-- what the credential file holds, as readJson gives it. `hash` is the SHA-256 of a token in
-- hexadecimal; the time, the random token and the random identifiers are arguments.

use cli_provider_router.Prelude.{
  ℕ, suc, ◌+◌, Bool, true, false, not, ◌&&◌, Option, none, some, ltb, leb, ◌==◌, if◌then◌else◌,
  List, [], ◌∷◌, ◌++◌, length, map, Text, codes, mem_text, Result, ok, err, ◌>>=◌, ◌>>◌, require,
}
use cli_provider_router.Json.{Fields}
use cli_provider_router.Hop.Routes.{
  HopError, bad_bundle_size, duplicate_routes, bad_expiry, unsupported_schema, Route, fields_of,
  normalize_route,
}
use cli_provider_router.Hop.Keys.{route_key}

-- A stored record; `none` is null, and a revocation at time 0 counts as none.
pub record Credential : Type 0 where
  pub id : Text
  pub bundle_id : Text
  pub bundle_index : ℕ
  pub route : Route
  pub route_key : Text
  pub token_hash : Text
  pub issued_at : ℕ
  pub expires_at : ℕ
  pub revoked_at : Option ℕ
  pub revoke_reason : Option Text

-- What readJson gives: null for a missing or unreadable file, a document of another schema, or the
-- list of credentials.
pub data Stored : Type 0 where
  absent : Stored
  other_schema : Stored
  credentials : List Credential → Stored

unfoldable pub load : Stored → Result HopError (List Credential)
load absent = ok []
load other_schema = err unsupported_schema
load (credentials cs) = ok cs

abbrev pub is_revoked : Credential → Bool
is_revoked c = elim c.revoked_at [ none ↦ false | some t ↦ not (t == 0) ]

abbrev pub revoke_at : ℕ → Text → Credential → Credential
revoke_at now reason c = record c { revoked_at = some now; revoke_reason = some reason }

-- `inputs.map(f)`, which ends at the first error.
abbrev pub map_result {ℓ κ} :
    {A : Type ℓ} {B : Type κ} → (A → Result HopError B) → List A → Result HopError (List B)
map_result f [] = ok []
map_result f (x ∷ xs) = f x >>= λ y. map_result f xs >>= λ ys. ok (y ∷ ys)

-- `new Set(keys).size === keys.length`
abbrev pub are_distinct : List Text → Bool
are_distinct [] = true
are_distinct (k ∷ ks) = not (mem_text k ks) && are_distinct ks

-- The options of a bundle: `expiresAt`, and the identifier that the caller or randomUUID gives.
pub record Bundle : Type 0 where
  pub expires_at : Option ℕ
  pub bundle_id : Text

-- What randomness gives to one call: a token, and an identifier for each record.
pub record Fresh : Type 0 where
  pub token : Text
  pub ids : ℕ → Text

pub record Issued : Type 0 where
  pub bundle_id : Text
  pub token : Text
  pub issued_at : ℕ
  pub expires_at : ℕ
  pub credentials : List Credential

-- The existing credentials of the keys are revoked, the ones revoked before stay.
unfoldable pub rotate : List Text → ℕ → List Credential → List Credential
unfolding mem_text
rotate keys now [] = []
rotate keys now (c ∷ cs) =
    (if mem_text c.route_key keys && not (is_revoked c)
      then revoke_at now (codes "rotated") c
      else c)
    ∷ rotate keys now cs

-- A route with its key.
abbrev pub keyed : Route → Result HopError (Route × Text)
keyed r = route_key (fields_of r) >>= λ k. ok (r, k)

abbrev pub keys_of : List (Route × Text) → List Text
keys_of rs = map (λ rk. rk.1) rs

abbrev pub expiry_of : Bundle → ℕ → ℕ → ℕ
expiry_of b ttl now = elim b.expires_at [ none ↦ now + ttl | some t ↦ t ]

-- What is checked before anything is issued, with what it finds: the routes with their keys, and
-- the stored credentials.
unfoldable pub check_bundle :
    ℕ → ℕ → Bundle → List Fields → Stored → Result HopError (List (Route × Text) × List Credential)
check_bundle ttl now b inputs stored =
    require (leb 1 (length inputs) && leb (length inputs) 256) bad_bundle_size
    >> (map_result normalize_route inputs >>= map_result keyed >>= λ rs.
        require (are_distinct (keys_of rs)) duplicate_routes
        >> (require (ltb now (expiry_of b ttl now)) bad_expiry
            >> (load stored >>= λ cs. ok (rs, cs))))

module _ (hash : Text → Text) where
  -- The records of the routes with their keys, from the given index on.
  unfoldable pub new_records : Bundle → Fresh → ℕ → ℕ → ℕ → List (Route × Text) → List Credential
  new_records b fresh now expiry i [] = []
  new_records b fresh now expiry i ((r, k) ∷ rs) =
      record {
        id = fresh.ids i;
        bundle_id = b.bundle_id;
        bundle_index = i;
        route = r;
        route_key = k;
        token_hash = hash fresh.token;
        issued_at = now;
        expires_at = expiry;
        revoked_at = none;
        revoke_reason = none;
      }
      ∷ new_records b fresh now expiry (suc i) rs

  -- The answer's records are given with their hash, which the source replaces by the clear token.
  -- The file holds the rotated credentials and then the new ones; on an error it is left.
  unfoldable pub issue_bundle :
      ℕ → ℕ → Bundle → Fresh → List Fields → Stored → Stored × Result HopError Issued
  issue_bundle ttl now b fresh inputs stored = elim (check_bundle ttl now b inputs stored) [
    | err e ↦ (stored, err e)
    | ok (rs, cs) ↦
        let records = new_records b fresh now (expiry_of b ttl now) 0 rs in
        (
          credentials (rotate (keys_of rs) now cs ++ records),
          ok (record {
            bundle_id = b.bundle_id;
            token = fresh.token;
            issued_at = now;
            expires_at = expiry_of b ttl now;
            credentials = records;
          }),
        )
  ]
