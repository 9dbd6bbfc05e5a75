-- ===== src/Hop/Issued.antt =====
-- lib/proxy/hop-credentials.js, issueBundle and verify: the token that is handed out is accepted for
-- every route of the bundle, whatever was stored for those routes before.
use cli_provider_router.Prelude.{
  ℕ, ◌<◌, ◌≡◌, ◌≢◌, refl, sym, subst, inl, inr, true, false, some, List, [], ◌∷◌, ◌++◌, get_elem?,
  keep, All, All-append, Text, mem_text, is_empty, ok, Result-cases, arith,
}
use cli_provider_router.Json.{Fields}
use cli_provider_router.Hop.Routes.{Route, normalize_route}
use cli_provider_router.Hop.Keys.{join_parts, parts_of}
use cli_provider_router.Hop.Credentials.{
  Credential, Stored, load, is_revoked, map_result, keyed, keys_of, expiry_of, Bundle, Fresh,
  Issued, check_bundle, new_records, rotate, issue_bundle,
}
use cli_provider_router.Hop.Access.{
  Verdict, hex_bytes, newest_first, judge_matches, has_key, verify,
}
use cli_provider_router.Hop.Injective.{route_key-fields_of}
use cli_provider_router.Hop.Grants.{Accepts, All-newest_first, Some-newest_first}
use cli_provider_router.Hop.Issue.{
  exact_hash_refl, get-map_result, mem_text-keys_of, rotate-All, Right, judge_matches-Accepts,
  keep-Right, keep-Some, Some-append-right, new_records-Accepts, new_records-Some,
}

pub check_bundle-ok :
    (ttl now : ℕ) (b : Bundle) (inputs : List Fields) (stored : Stored) (rs : List (Route × Text))
    (cs : List Credential)
    → check_bundle ttl now b inputs stored ≡ ok (rs, cs)
    → (routes : List Route) × (map_result normalize_route inputs ≡ ok routes)
      × (map_result keyed routes ≡ ok rs)
unfolding check_bundle
check_bundle-ok ttl now b inputs stored rs cs h =
    elim (Result-cases (map_result normalize_route inputs)) [
      | inr x ↦ ground arith
      | inl (routes, e) ↦ elim (Result-cases (map_result keyed routes)) [
        | inr x ↦ ground arith
        | inl (rs', e') ↦ (routes, e, ground arith)
      ]
    ]

-- The key of an input of the bundle is one of its keys.
key_of_input :
    (ttl now : ℕ) (b : Bundle) (inputs : List Fields) (stored : Stored) (rs : List (Route × Text))
    (cs : List Credential) (i : ℕ) (input : Fields)
    → check_bundle ttl now b inputs stored ≡ ok (rs, cs)
    → get_elem? inputs i ≡ some input
    → (r : Route) × (normalize_route input ≡ ok r)
      × (mem_text (join_parts (parts_of r)) (keys_of rs) ≡ true)
key_of_input ttl now b inputs stored rs cs i input h g =
    let (routes, e, e') = check_bundle-ok ttl now b inputs stored rs cs h in
    let (r, er, gr) = get-map_result normalize_route inputs routes i input e g in
    let ((s, k), ek, gk) = get-map_result keyed routes rs i r e' gr in
    (r, er, ground (arith, mem_text-keys_of rs i s k gk, route_key-fields_of input r er))

module _ (hash : Text → Text) where
  -- What the file holds after a bundle was issued.
  abbrev written : ℕ → ℕ → Bundle → Fresh → List (Route × Text) → List Credential → List Credential
  written ttl now b fresh rs cs =
      rotate (keys_of rs) now cs ++ new_records hash b fresh now (expiry_of b ttl now) 0 rs

  rotated-Right :
      (t : ℕ) (token : Text) (keys : List Text) (k : Text) (cs : List Credential)
      → mem_text k keys ≡ true
      → All (λ c. mem_text c.route_key keys ≡ true → is_revoked c ≡ true) cs
      → All (Right hash t token k) cs
  rotated-Right t token keys k [] m a = tt
  rotated-Right t token keys k (c ∷ cs) m a = (
    λ e live. absurd (ground (arith, a.0 (subst (λ j. mem_text j keys ≡ true) (sym e) m))),
    rotated-Right t token keys k cs m a.1,
  )

  Accepts-Right :
      (t : ℕ) (token k : Text) (cs : List Credential)
      → All (Accepts hash t token) cs
      → All (Right hash t token k) cs
  Accepts-Right t token k [] a = tt
  Accepts-Right t token k (c ∷ cs) a = (λ e live. a.0, Accepts-Right t token k cs a.1)

  written-accepted :
      (ttl now t : ℕ) (b : Bundle) (fresh : Fresh) (rs : List (Route × Text)) (cs : List Credential)
      (k : Text)
      → mem_text k (keys_of rs) ≡ true
      → 0 < now
      → t < expiry_of b ttl now
      → is_empty fresh.token ≡ false
      → hex_bytes (hash fresh.token) ≢ []
      → (judge_matches hash t fresh.token
          (newest_first (keep (has_key k) (written ttl now b fresh rs cs)))).is_ok
        ≡ true
  written-accepted ttl now t b fresh rs cs k m p l n x =
      let new =
        new_records-Accepts hash t fresh.token b fresh now (expiry_of b ttl now) 0 rs refl l n
          (exact_hash_refl (hash fresh.token) x) in
      let old =
        rotated-Right t fresh.token (keys_of rs) k (rotate (keys_of rs) now cs) m
          (rotate-All (keys_of rs) now cs p) in
      let right =
        All-append (Right hash t fresh.token k) (rotate (keys_of rs) now cs) _ old
          (Accepts-Right t fresh.token k _ new) in
      let found =
        Some-append-right hash t fresh.token _ (rotate (keys_of rs) now cs) _
          (new_records-Some hash t fresh.token b fresh now (expiry_of b ttl now) 0 rs k new m) in
      judge_matches-Accepts hash t fresh.token _
        (All-newest_first _ _
          (keep-Right hash t fresh.token k (written ttl now b fresh rs cs) right))
        ((Some-newest_first _ _).1
          (keep-Some hash t fresh.token k (written ttl now b fresh rs cs) found))

  -- The token of a bundle that was issued is accepted for each of its routes until the bundle
  -- expires, whatever was stored before, if the bundle was issued after time 0, the token is not
  -- empty, and its hash holds a byte.
  pub issue_bundle-verify :
      (ttl now : ℕ) (b : Bundle) (fresh : Fresh) (inputs : List Fields) (stored : Stored)
      (issued : Issued) (i : ℕ) (input : Fields) (t : ℕ)
      → (issue_bundle hash ttl now b fresh inputs stored).1 ≡ ok issued
      → get_elem? inputs i ≡ some input
      → 0 < now
      → t < issued.expires_at
      → is_empty fresh.token ≡ false
      → hex_bytes (hash fresh.token) ≢ []
      → (v : Verdict) × (verify hash t input fresh.token
            (issue_bundle hash ttl now b fresh inputs stored).0
          ≡ ok v)
        × (v.is_ok ≡ true)
  unfolding issue_bundle verify load
  issue_bundle-verify ttl now b fresh inputs stored issued i input t h g p l n x =
      elim (Result-cases (check_bundle ttl now b inputs stored)) [
        | inr z ↦ ground arith
        | inl ((rs, cs), e) ↦
            let (r, er, m) = key_of_input ttl now b inputs stored rs cs i input e g in
            (
              judge_matches hash t fresh.token (
                  newest_first
                    (keep (has_key (join_parts (parts_of r))) (written ttl now b fresh rs cs))),
              ground (arith, er, route_key-fields_of input r er),
              written-accepted ttl now t b fresh rs cs (join_parts (parts_of r)) m p (ground arith)
                  n x,
            )
      ]
