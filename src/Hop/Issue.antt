-- ===== src/Hop/Issue.antt =====
-- lib/proxy/hop-credentials.js, issueBundle: the records that it writes, and which credentials of a
-- list are found for a key.
use cli_provider_router.Prelude.{
  ℕ, zero, suc, ◌<◌, ◌≡◌, ◌≢◌, refl, sym, inl, inr, true, false, Bool-cases, some, or_else, List,
  [], ◌∷◌, ◌++◌, get_elem?, find, keep, All, Text, text_eq, text_eq_refl, text_eq_sound, mem_text,
  is_empty, Result, ok, Result-cases, arith,
}
use cli_provider_router.Hop.Routes.{HopError, Route}
use cli_provider_router.Hop.Credentials.{
  Credential, is_revoked, map_result, keys_of, Bundle, Fresh, new_records, rotate,
}
use cli_provider_router.Hop.Access.{hex_bytes, exact_hash, is_active, judge_matches, has_key}
use cli_provider_router.Hop.Grants.{Some, Accepts, judge_iff}

pub exact_hash_refl : (h : Text) → hex_bytes h ≢ [] → exact_hash h h ≡ true
unfolding exact_hash
exact_hash_refl h n = ground (arith, text_eq_refl (hex_bytes h))

pub get-map_result {ℓ κ} :
    {A : Type ℓ} {B : Type κ} (f : A → Result HopError B) (xs : List A) (ys : List B) (i : ℕ)
    (x : A)
    → map_result f xs ≡ ok ys
    → get_elem? xs i ≡ some x
    → (y : B) × (f x ≡ ok y) × (get_elem? ys i ≡ some y)
get-map_result f [] ys i x h g = ground arith
get-map_result f (w ∷ xs) ys zero x h g = elim (Result-cases (f w)) [
  | inr z ↦ ground arith
  | inl (b, e) ↦ elim (Result-cases (map_result f xs)) [
    | inr z ↦ ground arith
    | inl (bs, es) ↦ (b, ground arith, ground arith)
  ]
]
get-map_result f (w ∷ xs) ys (suc i) x h g = elim (Result-cases (f w)) [
  | inr z ↦ ground arith
  | inl (b, e) ↦ elim (Result-cases (map_result f xs)) [
    | inr z ↦ ground arith
    | inl (bs, es) ↦ ground (arith, get-map_result f xs bs i x es g)
  ]
]

pub mem_text-keys_of :
    (rs : List (Route × Text)) (i : ℕ) (r : Route) (k : Text)
    → get_elem? rs i ≡ some (r, k)
    → mem_text k (keys_of rs) ≡ true
unfolding mem_text
mem_text-keys_of [] i r k g = ground arith
mem_text-keys_of (x ∷ rs) zero r k g = ground (arith, text_eq_refl k)
mem_text-keys_of (x ∷ rs) (suc i) r k g = ground (arith, mem_text-keys_of rs i r k)

pub rotate-All :
    (keys : List Text) (now : ℕ) (cs : List Credential)
    → 0 < now
    → All (λ c. mem_text c.route_key keys ≡ true → is_revoked c ≡ true) (rotate keys now cs)
unfolding rotate
rotate-All keys now [] p = tt
rotate-All keys now (c ∷ cs) p = ground (arith, rotate-All keys now cs p)

module _ (hash : Text → Text) (t : ℕ) (token : Text) where
  -- What is not revoked among the credentials of the key is accepted.
  abbrev pub Right : Text → Credential → Type 0
  Right k c = c.route_key ≡ k → is_revoked c ≡ false → Accepts hash t token c

  find-Accepts :
      (d : Credential) (cs : List Credential)
      → All (λ c. is_revoked c ≡ false → Accepts hash t token c) cs
      → Some (Accepts hash t token) cs
      → Accepts hash t token (or_else (find is_active cs) d)
  find-Accepts d [] a s = ground arith
  find-Accepts d (c ∷ cs) a s = ground (arith, find-Accepts d cs)

  pub judge_matches-Accepts :
      (cs : List Credential)
      → All (λ c. is_revoked c ≡ false → Accepts hash t token c) cs
      → Some (Accepts hash t token) cs
      → (judge_matches hash t token cs).is_ok ≡ true
  unfolding judge_matches
  judge_matches-Accepts [] a s = absurd s
  judge_matches-Accepts (c ∷ cs) a s =
      (judge_iff hash t token (or_else (find is_active (c ∷ cs)) c)).1 (find-Accepts c (c ∷ cs) a s)

  pub keep-Right :
      (k : Text) (cs : List Credential)
      → All (Right k) cs
      → All (λ c. is_revoked c ≡ false → Accepts hash t token c) (keep (has_key k) cs)
  keep-Right k [] a = tt
  keep-Right k (c ∷ cs) a = elim (Bool-cases (text_eq c.route_key k)) [
    | inl e ↦ rw e (a.0 (text_eq_sound c.route_key k e), keep-Right k cs a.1)
    | inr n ↦ rw n (keep-Right k cs a.1)
  ]

  pub keep-Some :
      (k : Text) (cs : List Credential)
      → Some (λ c. (c.route_key ≡ k) × Accepts hash t token c) cs
      → Some (Accepts hash t token) (keep (has_key k) cs)
  keep-Some k [] s = elim s [ ]
  keep-Some k (c ∷ cs) (inl (e, a)) = rw (e, text_eq_refl k) (inl a)
  keep-Some k (c ∷ cs) (inr s) = elim (Bool-cases (text_eq c.route_key k)) [
    | inl e ↦ rw e (inr (keep-Some k cs s))
    | inr n ↦ rw n (keep-Some k cs s)
  ]

  pub Some-append-right :
      (P : Credential → Type 0) (xs ys : List Credential) → Some P ys → Some P (xs ++ ys)
  Some-append-right P [] ys s = s
  Some-append-right P (x ∷ xs) ys s = inr (Some-append-right P xs ys s)

  -- The new records are accepted.
  pub new_records-Accepts :
      (b : Bundle) (fresh : Fresh) (now expiry i : ℕ) (rs : List (Route × Text))
      → fresh.token ≡ token
      → t < expiry
      → is_empty token ≡ false
      → exact_hash (hash token) (hash token) ≡ true
      → All (Accepts hash t token) (new_records hash b fresh now expiry i rs)
  unfolding new_records
  new_records-Accepts b fresh now expiry i [] e l n h = tt
  new_records-Accepts b fresh now expiry i ((r, k) ∷ rs) e l n h =
      ((refl, l, n, rw e h), new_records-Accepts b fresh now expiry (suc i) rs e l n h)

  pub new_records-Some :
      (b : Bundle) (fresh : Fresh) (now expiry i : ℕ) (rs : List (Route × Text)) (k : Text)
      → All (Accepts hash t token) (new_records hash b fresh now expiry i rs)
      → mem_text k (keys_of rs) ≡ true
      → Some
          (λ c. (c.route_key ≡ k) × Accepts hash t token c)
          (new_records hash b fresh now expiry i rs)
  unfolding new_records mem_text
  new_records-Some b fresh now expiry i [] k a m = ground arith
  new_records-Some b fresh now expiry i ((r, j) ∷ rs) k a m = elim (Bool-cases (text_eq k j)) [
    | inl e ↦ inl (sym (text_eq_sound k j e), a.0)
    | inr n ↦ inr (new_records-Some b fresh now expiry (suc i) rs k a.1 (ground arith))
  ]
