-- ===== src/Profiles/Saved.antt =====
-- lib/route-profile-store.js, create and get: a profile that was created is found again.
use cli_provider_router.Prelude.{
  ℕ, ◌+◌, ◌≡◌, refl, ap, ◌∙◌, subst, inl, inr, Bool, true, false, some, List, [], ◌∷◌, ◌++◌, find,
  map, All, Text, text_eq, text_ne, Result, ok, Result-cases, ◌>>=◌, arith,
}
use cli_provider_router.Json.{Json, arr, obj, Fields, end}
use cli_provider_router.Atomic.{Disk, Step}
use cli_provider_router.Durable.{Current, Outcome, next, Mutated, load, mutate}
use cli_provider_router.Durable.Laws.{IsPlainKey, written}
use cli_provider_router.Durable.Changes.{IsSettled, mutate-IsSettled}
use cli_provider_router.Settings.{own_fields}
use cli_provider_router.Profiles.Profile.{ProfileError, normalize_profile}
use cli_provider_router.Profiles.Store.{
  items_list, list_items, profiles_schema, rows_in, spread_in, has_id, list, get, create,
  create_callback,
}

profiles_plain : IsPlainKey profiles_schema
unfolding text_eq
profiles_plain = record {
  not_schema = text_ne _ _ refl;
  not_version = text_ne _ _ refl;
  not_revision = text_ne _ _ refl;
  not_updated = text_ne _ _ refl;
}

pub items_list-list_items : (vs : List Json) → items_list (list_items vs) ≡ vs
items_list-list_items [] = refl
items_list-list_items (v ∷ vs) = ap (λ x. v ∷ x) (items_list-list_items vs)

-- No item of the list has the identifier.
abbrev pub IsNew : Text → List Json → Type 0
IsNew id vs = All (λ v. has_id id (own_fields v) ≡ false) vs

find_last :
    (id : Text) (vs : List Json) (p : Fields)
    → IsNew id vs
    → has_id id p ≡ true
    → find (has_id id) (map own_fields (vs ++ (obj p ∷ []))) ≡ some p
find_last id [] p n h = rw h refl
find_last id (v ∷ vs) p n h = rw (n.0) (find_last id vs p n.1 h)

module _ (works : Step → Bool) (validate : Fields → Result ProfileError Fields) where
  get_loaded :
      (id : Text) (d : Disk) (vs : List Json) (revision : ℕ)
      → load works profiles_schema d
        ≡ (d, ok (written profiles_schema (arr (list_items vs)) revision))
      → get works validate id d ≡ (d, ok (find (has_id id) (map own_fields vs)))
  unfolding get list rows_in
  get_loaded id d vs revision e = rw (e, items_list-list_items vs) refl

  -- The second disk holds the first one's profiles and one more.
  abbrev pub Gains : Fields → Disk → Disk → Type 0
  Gains p d d' =
      (c : Current) × (vs : List Json) × ((load works profiles_schema d).1 ≡ ok c)
      × (spread_in c.payload ≡ ok vs)
      × (load works profiles_schema d' ≡ (
        d',
        ok (written profiles_schema (arr (list_items (vs ++ (obj p ∷ [])))) (c.revision + 1)),
      ))

  -- What the callback of `create` comes to for the items that it spreads.
  abbrev appended : Fields → List Json → Result ProfileError (Outcome Fields)
  appended p vs = ok (next (arr (list_items (vs ++ (obj p ∷ [])))) p)

  mutate-Gains :
      (p : Fields) (now : ℕ) (d : Disk) (m : Mutated Fields)
      → (mutate works profiles_schema (create_callback works validate p) now d).1 ≡ ok m
      → Gains p d (mutate works profiles_schema (create_callback works validate p) now d).0
  mutate-Gains p now d m h =
      let (c, l, settled) =
        mutate-IsSettled works profiles_schema profiles_plain (create_callback works validate p) now
          d m h in
      let d' = (mutate works profiles_schema (create_callback works validate p) now d).0 in
      elim (Result-cases (spread_in c.payload)) [
        | inr (x, e) ↦ absurd (
            subst (λ z. IsSettled works profiles_schema (z >>= appended p) c.revision d' m) e
              settled)
        | inl (vs, e) ↦ (
          c,
          vs,
          l,
          e,
          (subst (λ z. IsSettled works profiles_schema (z >>= appended p) c.revision d' m) e
              settled).1,
        )
      ]

  create-Gains :
      (now : ℕ) (fresh : Text) (input : Json) (d : Disk) (p : Fields)
      → (create works validate now fresh input d).1 ≡ ok p
      → Gains p d (create works validate now fresh input d).0
  unfolding create
  create-Gains now fresh input d p h =
      elim (Result-cases (normalize_profile now fresh input end >>= validate)) [
        | inr (x, e) ↦ absurd (ground (arith, e, h))
        | inl (q, e) ↦
            elim (Result-cases
              (mutate works profiles_schema (create_callback works validate q) now d).1) [
                | inr (x, f) ↦ absurd (ground (arith, e, f, h))
                | inl (m, f) ↦
                    let same : q ≡ p = ground (arith, e, f, h) in
                    let moved : (mutate works profiles_schema (create_callback works validate q) now
                          d).0
                        ≡ (create works validate now fresh input d).0 =
                      rw (e, create) refl in
                    subst (λ z. Gains z d (create works validate now fresh input d).0) same
                      (subst (Gains q d) moved (mutate-Gains q now d m f))
              ]
      ]

  -- A profile that `create` returned is what `get` then gives for its identifier, from the file
  -- itself, provided no profile of the file had the identifier before.
  pub get-create :
      (now : ℕ) (fresh id : Text) (input : Json) (d : Disk) (p : Fields)
      → (create works validate now fresh input d).1 ≡ ok p
      → has_id id p ≡ true
      → ((c : Current) (vs : List Json)
          → (load works profiles_schema d).1 ≡ ok c
          → spread_in c.payload ≡ ok vs
          → IsNew id vs)
      → let d' = (create works validate now fresh input d).0 in
        get works validate id d' ≡ (d', ok (some p))
  get-create now fresh id input d p h there fresh_id =
      let (c, vs, l, e, stored) = create-Gains now fresh input d p h in
      let d' = (create works validate now fresh input d).0 in
      get_loaded id d' (vs ++ (obj p ∷ [])) (c.revision + 1) stored
      ∙ ap (λ x. (d', ok x)) (find_last id vs p (fresh_id c vs l e) there)
