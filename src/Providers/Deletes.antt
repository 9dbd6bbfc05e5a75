-- ===== src/Providers/Deletes.antt =====
-- lib/store.js and lib/route-profile-store.js: a delete of a provider and the profiles that refer to
-- it.
use cli_provider_router.Prelude.{
  ℕ, ◌+◌, ◌<◌, ◌≡◌, refl, ap, subst, inl, inr, Bool, true, false, Bool-cases, Option, none, some,
  ◌==◌, if◌then◌else◌, List, [], ◌∷◌, length, any, keep, All, Text, text_eq, text_ne, is_empty,
  Result, ok, err, Result-cases, ◌>>=◌, arith,
}
use cli_provider_router.Json.{Json, null, bool, num, str, arr, obj, Fields}
use cli_provider_router.Atomic.{Disk, Step}
use cli_provider_router.Durable.{thrown, Outcome, unchanged, next, Mutated, load, mutate}
use cli_provider_router.Durable.Laws.{IsPlainKey, written}
use cli_provider_router.Durable.Changes.{IsSettled, mutate-IsSettled}
use cli_provider_router.Profiles.Profile.{ProfileError}
use cli_provider_router.Profiles.Store.{list_items, uses_provider, list, references_provider}
use cli_provider_router.Profiles.Saved.{items_list-list_items}
use cli_provider_router.Providers.Build.{Url}
use cli_provider_router.Providers.Store.{
  ProviderError, in_use, providers_schema, providers_in, is_provider, is_wanted, find_item,
  without_items,
}
use cli_provider_router.Providers.Accounts.{
  load_store, get_provider, delete_callback, delete_provider,
}

pub providers_plain : IsPlainKey providers_schema
unfolding text_eq
providers_plain = record {
  not_schema = text_ne _ _ refl;
  not_version = text_ne _ _ refl;
  not_revision = text_ne _ _ refl;
  not_updated = text_ne _ _ refl;
}

keep-All : {A : Type 0} (test : A → Bool) (xs : List A) → All (λ x. test x ≡ true) (keep test xs)
keep-All test [] = tt
keep-All test (x ∷ xs) = elim (Bool-cases (test x)) [
  | inl y ↦ rw y (y, keep-All test xs)
  | inr n ↦ rw n (keep-All test xs)
]

keep-any :
    {A : Type 0} (test : A → Bool) (xs : List A)
    → (any test xs ≡ true → 0 < length (keep test xs)) × (keep test xs ≡ [] → any test xs ≡ false)
keep-any test [] = ground arith
keep-any test (x ∷ xs) = ground (arith, keep-any test xs)

-- The item that getProvider looks for is the one that deleteProvider takes out.
wanted_provider :
    (app_type id : Text) (v : Json)
    → is_empty app_type ≡ false
    → is_wanted app_type id v ≡ is_provider app_type id v
unfolding is_wanted is_provider
wanted_provider app_type id null n = refl
wanted_provider app_type id (bool b) n = ground arith
wanted_provider app_type id (num k) n = ground arith
wanted_provider app_type id (str s) n = ground arith
wanted_provider app_type id (arr vs) n = ground arith
wanted_provider app_type id (obj fs) n = ground arith

find-without :
    (app_type id : Text) (vs kept : List Json)
    → is_empty app_type ≡ false
    → without_items (is_provider app_type id) vs ≡ ok kept
    → find_item (is_wanted app_type id) kept ≡ ok none
unfolding without_items find_item
find-without app_type id [] kept n h = ground arith
find-without app_type id (v ∷ vs) kept n h = elim (Result-cases (is_provider app_type id v)) [
  | inr (x, e) ↦ ground arith
  | inl (here, e) ↦ elim (Result-cases (without_items (is_provider app_type id) vs)) [
    | inr (x, r) ↦ ground arith
    | inl (more, r) ↦ elim (Bool-cases here) [
      | inl y ↦
          let same : more ≡ kept = ground arith in
          subst (λ k. find_item (is_wanted app_type id) k ≡ ok none) same
            (find-without app_type id vs more n r)
      | inr m ↦
          let same : v ∷ more ≡ kept = ground arith in
          subst (λ k. find_item (is_wanted app_type id) k ≡ ok none) same
            (ground
              (arith, e, m, wanted_provider app_type id v n, find-without app_type id vs more n r))
    ]
  ]
]

module _ (works : Step → Bool) (validate : Fields → Result ProfileError Fields)
    (parse : Text → Option Json) (parse_url : Text → Option Url) (port : Text) where
  -- What the callback of a delete comes to for the items that are kept, and for the list.
  abbrev of_kept : List Json → List Json → Result ProviderError (Outcome Bool)
  of_kept vs kept =
      ok (if length kept == length vs then unchanged else next (arr (list_items kept)) true)

  abbrev of_list : Text → Text → List Json → Result ProviderError (Outcome Bool)
  of_list app_type id vs = without_items (is_provider app_type id) vs >>= of_kept vs

  deleted_get :
      (app_type id : Text) (d : Disk) (kept : List Json) (revision : ℕ)
      → load works providers_schema d
        ≡ (d, ok (written providers_schema (arr (list_items kept)) revision))
      → find_item (is_wanted app_type id) kept ≡ ok none
      → get_provider works parse parse_url port app_type id d ≡ (d, ok none)
  unfolding get_provider load_store providers_in
  deleted_get app_type id d kept revision e f = rw (e, items_list-list_items kept, f) refl

  kept_get :
      (app_type id : Text) (vs kept : List Json) (revision : ℕ) (d : Disk) (m : Mutated Bool)
      → IsSettled works providers_schema (of_kept vs kept) revision d m
      → m.changed ≡ true
      → find_item (is_wanted app_type id) kept ≡ ok none
      → get_provider works parse parse_url port app_type id d ≡ (d, ok none)
  kept_get app_type id vs kept revision d m s t f = elim (Bool-cases (length kept == length vs)) [
    | inl y ↦
        let same =
          subst
            (λ b.
              IsSettled works providers_schema {E = ProviderError}
                (ok (if b then unchanged else next (arr (list_items kept)) true)) revision d m)
            y s in
        absurd (ground (arith, t, ap (λ x. x.changed) same))
    | inr n ↦
        let stored =
          subst
            (λ b.
              IsSettled works providers_schema {E = ProviderError}
                (ok (if b then unchanged else next (arr (list_items kept)) true)) revision d m)
            n s in
        deleted_get app_type id d kept (revision + 1) stored.1 f
  ]

  list_get :
      (app_type id : Text) (vs : List Json) (revision : ℕ) (d : Disk) (m : Mutated Bool)
      → is_empty app_type ≡ false
      → IsSettled works providers_schema (of_list app_type id vs) revision d m
      → m.changed ≡ true
      → get_provider works parse parse_url port app_type id d ≡ (d, ok none)
  list_get app_type id vs revision d m n s t =
      elim (Result-cases (without_items (is_provider app_type id) vs)) [
        | inr (x, e) ↦
            absurd
              (subst (λ z. IsSettled works providers_schema (z >>= of_kept vs) revision d m) e s)
        | inl (kept, e) ↦
            kept_get app_type id vs kept revision d m
              (subst (λ z. IsSettled works providers_schema (z >>= of_kept vs) revision d m) e s) t
              (find-without app_type id vs kept n e)
      ]

  mutate_deletes :
      (now : ℕ) (app_type id : Text) (d : Disk) (m : Mutated Bool)
      → is_empty app_type ≡ false
      → let fn = delete_callback works parse parse_url port app_type id in
        (mutate works providers_schema fn now d).1 ≡ ok m
        → m.changed ≡ true
        → get_provider works parse parse_url port app_type id
            (mutate works providers_schema fn now d).0
          ≡ ((mutate works providers_schema fn now d).0, ok none)
  mutate_deletes now app_type id d m n h t =
      let fn = delete_callback works parse parse_url port app_type id in
      let d' = (mutate works providers_schema fn now d).0 in
      let (c, l, settled) = mutate-IsSettled works providers_schema providers_plain fn now d m h in
      let step : Result ProviderError (List Json) → Type 0 =
        λ z. IsSettled works providers_schema (z >>= of_list app_type id) c.revision d' m in
      elim (Result-cases (providers_in c.payload)) [
        | inr (x, e) ↦ absurd (subst step e settled)
        | inl (vs, e) ↦ list_get app_type id vs c.revision d' m n (subst step e settled) t
      ]

  -- What a delete does when a resolver is set and has named these profiles.
  abbrev pub IsGuarded : ℕ → Text → Text → List Fields → List Fields → Disk → Type 0
  IsGuarded now app_type id ps refs d =
      let result = delete_provider works parse parse_url port now (some refs) app_type id d in
      (any (uses_provider app_type id) ps ≡ true
        → (result ≡ (d, err (thrown (in_use refs))))
          × (0 < length refs)
          × All (λ p. uses_provider app_type id p ≡ true) refs)
      × ((deleted : Bool)
          → result.1 ≡ ok deleted
          → (any (uses_provider app_type id) ps ≡ false)
            × (deleted ≡ true
                → get_provider works parse parse_url port app_type id result.0
                  ≡ (result.0, ok none)))

  refs-IsGuarded :
      (now : ℕ) (app_type id : Text) (ps refs : List Fields) (d : Disk)
      → is_empty app_type ≡ false
      → keep (uses_provider app_type id) ps ≡ refs
      → IsGuarded now app_type id ps refs d
  unfolding delete_provider
  refs-IsGuarded now app_type id ps (p ∷ refs) d n e = (
    λ y. (
      refl,
      omega arith,
      subst (All (λ p. uses_provider app_type id p ≡ true)) e
          (keep-All (uses_provider app_type id) ps),
    ),
    λ b h. absurd (ground (arith, h)),
  )
  refs-IsGuarded now app_type id ps [] d n e = (
    λ y. absurd (ground (arith, y, e, keep-any (uses_provider app_type id) ps)),
    λ b h. (
      (keep-any (uses_provider app_type id) ps).1 e,
      λ t.
          let fn = delete_callback works parse parse_url port app_type id in
          elim (Result-cases (mutate works providers_schema fn now d).1) [
            | inr (x, f) ↦ absurd (ground (arith, f, h))
            | inl (m, f) ↦ mutate_deletes now app_type id d m n f (ground (arith, f, h, t))
          ],
    ),
  )

  -- Where the store's reference resolver is set to the referencesProvider of the route profiles, a
  -- provider that some profile refers to is not deleted: the delete is refused with the profiles that
  -- do, and changes nothing. A delete that returns had no such profile, and if it says that it deleted,
  -- the provider is not found any more. The profiles are those of their file when the references are
  -- asked for, and the provider's type is not empty. Nothing is said of a store without a resolver.
  pub delete-IsGuarded :
      (now : ℕ) (app_type id : Text) (profiles providers : Disk) (ps refs : List Fields)
      → is_empty app_type ≡ false
      → (list works validate profiles).1 ≡ ok ps
      → (references_provider works validate app_type id profiles).1 ≡ ok refs
      → IsGuarded now app_type id ps refs providers
  unfolding references_provider
  delete-IsGuarded now app_type id profiles providers ps refs n l r =
      refs-IsGuarded now app_type id ps refs providers n (ground (arith, l, r))
