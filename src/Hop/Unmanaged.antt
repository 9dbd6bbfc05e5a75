-- ===== src/Hop/Unmanaged.antt =====
-- lib/proxy/hop-credentials.js, verify: the requests that count as unmanaged.
use cli_provider_router.Prelude.{
  ℕ, ◌≡◌, ◌≢◌, refl, ap, ◌∙◌, ◌⊎◌, inl, inr, Bool, true, false, Bool-cases, or_else, List, [], ◌∷◌,
  find, keep, All, Text, text_eq_iff, ok, err, Result-cases, arith,
}
use cli_provider_router.Json.{Fields}
use cli_provider_router.Hop.Routes.{Route, HopError, normalize_route}
use cli_provider_router.Hop.Keys.{join_parts, parts_of}
use cli_provider_router.Hop.Credentials.{Credential, Stored, load}
use cli_provider_router.Hop.Access.{
  Verdict, insert_newest, newest_first, is_active, judge, judge_matches, has_key, verify,
}
use cli_provider_router.Hop.Injective.{route_key-fields_of}

keep_none : {A : Type 0} (p : A → Bool) (xs : List A) → keep p xs ≡ [] → All (λ x. p x ≡ false) xs
keep_none p [] h = tt
keep_none p (x ∷ xs) h = elim (Bool-cases (p x)) [
  | inl y ↦ absurd (ground (arith, h, y))
  | inr n ↦ (n, keep_none p xs (ground (arith, h, n)))
]

insert_newest_some : (c : Credential) (cs : List Credential) → insert_newest c cs ≢ []
unfolding insert_newest
insert_newest_some c [] h = ground arith
insert_newest_some c (d ∷ cs) h = ground arith

newest_first_none : (cs : List Credential) → newest_first cs ≡ [] → cs ≡ []
unfolding newest_first
newest_first_none [] h = refl
newest_first_none (c ∷ cs) h = absurd (insert_newest_some c (newest_first cs) h)

-- The request names no valid route, or a route whose key no stored credential has, revoked and
-- expired ones included.
abbrev pub IsUnmanaged : Fields → Stored → Type 0
IsUnmanaged input stored =
    ((e : HopError) × (normalize_route input ≡ err e))
    ⊎ ((r : Route) × (cs : List Credential) × (normalize_route input ≡ ok r)
        × (load stored ≡ ok cs)
        × All (λ c. c.route_key ≢ join_parts (parts_of r)) cs)

other_keys :
    (k : Text) (cs : List Credential)
    → All (λ c. has_key k c ≡ false) cs
    → All (λ c. c.route_key ≢ k) cs
other_keys k [] h = tt
other_keys k (c ∷ cs) h =
    (λ e. ground (arith, h.0, text_eq_iff c.route_key k, e), other_keys k cs h.1)

module _ (hash : Text → Text) where
  judge_managed :
      (now : ℕ) (token : Text) (c : Credential) → (judge hash now token c).is_managed ≡ true
  unfolding judge
  judge_managed now token c = ground arith

  unmanaged_none :
      (now : ℕ) (token : Text) (cs : List Credential)
      → (judge_matches hash now token cs).is_managed ≡ false
      → cs ≡ []
  unfolding judge_matches
  unmanaged_none now token [] h = refl
  unmanaged_none now token (c ∷ cs) h =
      absurd (ground (arith, h, judge_managed now token (or_else (find is_active (c ∷ cs)) c)))

  pub verify-IsUnmanaged :
      (now : ℕ) (input : Fields) (token : Text) (stored : Stored) (v : Verdict)
      → verify hash now input token stored ≡ ok v
      → v.is_managed ≡ false
      → IsUnmanaged input stored
  unfolding verify
  verify-IsUnmanaged now input token stored v h n = elim (Result-cases (normalize_route input)) [
    | inr (e, r) ↦ inl (e, r)
    | inl (r, er) ↦ elim (Result-cases (load stored)) [
      | inr x ↦ absurd (ground (arith, route_key-fields_of input r er))
      | inl (cs, ec) ↦
          let k : Text = join_parts (parts_of r) in
          let same : judge_matches hash now token (newest_first (keep (has_key k) cs)) ≡ v =
            ground (arith, route_key-fields_of input r er) in
          let empty =
            unmanaged_none now token (newest_first (keep (has_key k) cs))
              (ap (λ w. w.is_managed) same ∙ n) in
          inr (
            r,
            cs,
            er,
            ec,
            other_keys k cs
                (keep_none (has_key k) cs (newest_first_none (keep (has_key k) cs) empty)),
          )
    ]
  ]
