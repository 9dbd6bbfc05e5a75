-- ===== src/Hop/Grants.antt =====
-- lib/proxy/hop-credentials.js, verify: what stands in the store when a token is accepted, and what
-- makes it accepted.
use cli_provider_router.Prelude.{
  ℕ, ◌<◌, ◌≡◌, ap, ◌∙◌, ◌↔◌, ◌⊎◌, inl, inr, Bool, true, false, Bool-cases, or_else, List, [], ◌∷◌,
  find, keep, All, Text, text_eq_sound, is_empty, ok, Result-cases, arith,
}
use cli_provider_router.Json.{Fields}
use cli_provider_router.Hop.Routes.{Route, normalize_route}
use cli_provider_router.Hop.Keys.{join_parts, parts_of}
use cli_provider_router.Hop.Credentials.{Credential, Stored, load, is_revoked}
use cli_provider_router.Hop.Access.{
  Verdict, exact_hash, insert_newest, newest_first, is_active, judge, judge_matches, has_key,
  verify,
}
use cli_provider_router.Hop.Injective.{route_key-fields_of}

module _ {ℓ} {A : Type ℓ} (P : A → Type 0) where
  -- An item of the list is so.
  abbrev pub Some : List A → Type 0
  Some [] = ⊥
  Some (x ∷ xs) = P x ⊎ Some xs

  pub Some-find : (p : A → Bool) (d : A) (xs : List A) → P (or_else (find p xs) d) → P d ⊎ Some xs
  Some-find p d [] h = inl h
  Some-find p d (x ∷ xs) h = ground (arith, Some-find p d xs)

-- The items that are kept are items that pass.
pub Some-keep {ℓ} :
    {A : Type ℓ} (P Q : A → Type 0) (p : A → Bool)
    → ((x : A) → P x → p x ≡ true → Q x)
    → (xs : List A) → Some P (keep p xs)
    → Some Q xs
Some-keep P Q p f [] h = h
Some-keep P Q p f (x ∷ xs) h = ground (arith, f x, Some-keep P Q p f xs)

pub All-keep {ℓ κ} :
    {A : Type ℓ} (P : A → Type κ) (p : A → Bool) (xs : List A) → All P xs → All P (keep p xs)
All-keep P p [] h = h
All-keep P p (x ∷ xs) h = ground (arith, All-keep P p xs)

-- Sorting changes no item.
All-insert_newest :
    (P : Credential → Type 0) (c : Credential) (cs : List Credential)
    → P c
    → All P cs
    → All P (insert_newest c cs)
unfolding insert_newest
All-insert_newest P c [] h k = (h, tt)
All-insert_newest P c (d ∷ cs) h k = ground (arith, All-insert_newest P c cs)

pub All-newest_first :
    (P : Credential → Type 0) (cs : List Credential) → All P cs → All P (newest_first cs)
unfolding newest_first
All-newest_first P [] h = h
All-newest_first P (c ∷ cs) h =
    All-insert_newest P c (newest_first cs) h.0 (All-newest_first P cs h.1)

Some-insert_newest :
    (P : Credential → Type 0) (c : Credential) (cs : List Credential)
    → Some P (insert_newest c cs) ↔ (P c ⊎ Some P cs)
unfolding insert_newest
Some-insert_newest P c [] = ground arith
Some-insert_newest P c (d ∷ cs) = ground (arith, Some-insert_newest P c cs)

pub Some-newest_first :
    (P : Credential → Type 0) (cs : List Credential) → Some P (newest_first cs) ↔ Some P cs
unfolding newest_first
Some-newest_first P [] = ground arith
Some-newest_first P (c ∷ cs) =
    ground (arith, Some-newest_first P cs, Some-insert_newest P c (newest_first cs))

module _ (hash : Text → Text) where
  -- The credential is not revoked, not expired, and holds the hash of the token.
  abbrev pub Accepts : ℕ → Text → Credential → Type 0
  Accepts now token c =
      (is_revoked c ≡ false)
      × (now < c.expires_at)
      × (is_empty token ≡ false)
      × (exact_hash (hash token) c.token_hash ≡ true)

  pub judge_iff :
      (now : ℕ) (token : Text) (c : Credential)
      → ((judge hash now token c).is_ok ≡ true) ↔ Accepts now token c
  unfolding judge
  judge_iff now token c = elim (Bool-cases (is_revoked c)) [
    | inl r ↦ ground arith
    | inr r ↦ elim (Bool-cases (is_empty token)) [
      | inl e ↦ ground arith
      | inr e ↦ elim (Bool-cases (exact_hash (hash token) c.token_hash)) [
        | inl y ↦ ground arith
        | inr n ↦ ground arith
      ]
    ]
  ]

  judge_matches-Some :
      (now : ℕ) (token : Text) (cs : List Credential)
      → (judge_matches hash now token cs).is_ok ≡ true
      → Some (Accepts now token) cs
  unfolding judge_matches
  judge_matches-Some now token [] h = ground arith
  judge_matches-Some now token (c ∷ cs) h = ground (
    arith,
    Some-find (Accepts now token) is_active c (c ∷ cs)
        ((judge_iff now token (or_else (find is_active (c ∷ cs)) c)).0 h),
  )

  -- A token is accepted for a route only while the store holds a credential with that route's key
  -- that is neither revoked nor expired and has the hash of this token.
  pub verify_sound :
      (now : ℕ) (input : Fields) (token : Text) (stored : Stored) (v : Verdict)
      → verify hash now input token stored ≡ ok v
      → v.is_ok ≡ true
      → (r : Route) × (cs : List Credential) × (normalize_route input ≡ ok r)
        × (load stored ≡ ok cs)
        × Some (λ c. (c.route_key ≡ join_parts (parts_of r)) × Accepts now token c) cs
  unfolding verify
  verify_sound now input token stored v h accepted = elim (Result-cases (normalize_route input)) [
    | inr x ↦ ground arith
    | inl (r, er) ↦ elim (Result-cases (load stored)) [
      | inr x ↦ ground (arith, route_key-fields_of input r er)
      | inl (cs, ec) ↦
          let k : Text = join_parts (parts_of r) in
          let same : judge_matches hash now token (newest_first (keep (has_key k) cs)) ≡ v =
            ground (arith, route_key-fields_of input r er) in
          let found =
            judge_matches-Some now token (newest_first (keep (has_key k) cs))
              (ap (λ w. w.is_ok) same ∙ accepted) in
          (
            r,
            cs,
            er,
            ec,
            Some-keep _ _ (has_key k) (λ c a e. (text_eq_sound c.route_key k e, a)) cs
                ((Some-newest_first (Accepts now token) (keep (has_key k) cs)).0 found),
          )
    ]
  ]
