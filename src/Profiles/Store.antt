-- ===== src/Profiles/Store.antt =====
-- lib/route-profile-store.js, createRouteProfileStore over the durable store. `validate` is the option
-- validateProfile of the host.
use cli_provider_router.Prelude.{
  ℕ, Bool, true, false, ◌&&◌, ◌||◌, Option, none, some, ◌==◌, if◌then◌else◌, List, [], ◌∷◌, ◌++◌,
  length, any, find, map, keep, Text, codes, is_empty, Result, ok, err, ◌>>=◌,
}
use cli_provider_router.Json.{
  Json, null, str, arr, obj, Items, nil, cons, Fields, end, field, lookup, truthy,
}
use cli_provider_router.Atomic.{Disk, Step, StateError}
use cli_provider_router.Durable.{
  Schema, Current, StoreError, thrown, state_error, Outcome, unchanged, next, Mutated, is_text,
  insert_field, load, mutate,
}
use cli_provider_router.Ledger.Event.{json_or_null}
use cli_provider_router.Settings.{insert_all, own_fields}
use cli_provider_router.Profiles.Profile.{
  ProfileError, type_error, not_found, not_false, normalize_profile,
}

-- The items of an array; a callback on them throws for other values.
abbrev pub items_list : Items → List Json
items_list nil = []
items_list (cons v vs) = v ∷ items_list vs

abbrev pub list_items : List Json → Items
list_items [] = nil
list_items (v ∷ vs) = cons v (list_items vs)

-- `migrateLegacy`: null, a bare array, and an object that holds one under the key.
abbrev pub array_under : Option Json → Option Json
array_under (some (arr vs)) = some (arr vs)
array_under v = none

abbrev pub migrate_list : Text → Json → Option Json
migrate_list key null = some (arr nil)
migrate_list key (arr vs) = some (arr vs)
migrate_list key (obj fs) = array_under (lookup key fs)
migrate_list key v = none

abbrev pub profiles_schema : Schema
profiles_schema = record {
  name = codes "cpr.route-profiles";
  version = 1;
  payload_key = codes "profiles";
  default_payload = arr nil;
  migrate_legacy = migrate_list (codes "profiles");
  backups = 2;
}

-- `payload.map(p => ({ ...p }))`, and any other method of an array.
unfoldable pub rows_in : Json → Result ProfileError (List Json)
rows_in (arr vs) = ok (items_list vs)
rows_in v = err type_error

-- The items that `...payload` gives; a text gives its code units here.
unfoldable pub spread_in : Json → Result ProfileError (List Json)
spread_in (arr vs) = ok (items_list vs)
spread_in (str s) = ok (map (λ c. str (c ∷ [])) s)
spread_in v = err type_error

-- `p.id === id` of an item, which throws for null.
abbrev pub is_id : Text → Json → Result ProfileError Bool
is_id id null = err type_error
is_id id (obj fs) = ok (is_text id (lookup (codes "id") fs))
is_id id v = ok false

abbrev pub has_id : Text → Fields → Bool
has_id id p = is_text id (lookup (codes "id") p)

-- `profiles.findIndex(p => p.id === id)` and the assignment to the item at that index.
unfoldable pub replace_first :
    Text
    → (Json → Result ProfileError Fields)
    → List Json
    → Result ProfileError (List Json × Fields)
replace_first id change [] = err not_found
replace_first id change (v ∷ vs) =
    let rest = replace_first id change vs in
    is_id id v >>= λ here.
    if here then (change v >>= λ p. ok (obj p ∷ vs, p)) else (rest >>= λ r. ok (v ∷ r.0, r.1))

-- `profiles.filter(p => p.id !== id)`
unfoldable pub without_id : Text → List Json → Result ProfileError (List Json)
without_id id [] = ok []
without_id id (v ∷ vs) =
    let rest = without_id id vs in
    is_id id v >>= λ here. rest >>= λ kept. ok (if here then kept else v ∷ kept)

-- `{ ...current, ...patch, id }`
abbrev pub patched : Json → Json → Text → Fields
patched current patch id =
    insert_field (codes "id") (str id) (insert_all (own_fields current) (own_fields patch))

-- An error of the store or of the code around it.
abbrev pub or_thrown : {A : Type 0} → Result ProfileError A → Result (StoreError ProfileError) A
or_thrown (ok a) = ok a
or_thrown (err e) = err (thrown e)

abbrev pub list_of : Result StateError Current → Result (StoreError ProfileError) (List Fields)
list_of (err e) = err (state_error e)
list_of (ok c) = or_thrown (rows_in c.payload >>= λ vs. ok (map own_fields vs))

-- The profile's endpoints that are given: main, subagent, and the values of the roles.
abbrev pub values_of : Fields → List Json
values_of end = []
values_of (field k v fs) = v ∷ values_of fs

unfoldable pub endpoints_of : Fields → List Json
endpoints_of p = keep truthy (
    json_or_null (lookup (codes "main") p)
    ∷ json_or_null (lookup (codes "subagent") p)
    ∷ values_of (own_fields (json_or_null (lookup (codes "roles") p))))

-- `endpoint.providerId === providerId`
unfoldable pub leads_to : Text → Json → Bool
leads_to provider (obj fs) = is_text provider (lookup (codes "providerId") fs)
leads_to provider v = false

unfoldable pub uses_provider : Text → Text → Fields → Bool
uses_provider cli provider p =
    is_text cli (lookup (codes "cli") p) && any (leads_to provider) (endpoints_of p)

unfoldable pub is_resolved : Text → Text → Fields → Bool
is_resolved cli id p =
    not_false (lookup (codes "enabled") p)
    && is_text cli (lookup (codes "cli") p)
    && (is_empty id || has_id id p)

module _ (works : Step → Bool) (validate : Fields → Result ProfileError Fields) where
  unfoldable pub list : Disk → Disk × Result (StoreError ProfileError) (List Fields)
  list d = let (d', current) = load works profiles_schema d in (d', list_of current)

  abbrev answered :
      {A : Type 0}
      → (List Fields → A)
      → Disk × Result (StoreError ProfileError) (List Fields)
      → Disk × Result (StoreError ProfileError) A
  answered f (d, ps) = (d, ps >>= λ x. ok (f x))

  unfoldable pub get : Text → Disk → Disk × Result (StoreError ProfileError) (Option Fields)
  get id d = answered (find (has_id id)) (list d)

  unfoldable pub resolve :
      Text → Text → Disk → Disk × Result (StoreError ProfileError) (Option Fields)
  resolve cli id d = answered (find (is_resolved cli id)) (list d)

  unfoldable pub references_provider :
      Text → Text → Disk → Disk × Result (StoreError ProfileError) (List Fields)
  references_provider cli provider d = answered (keep (uses_provider cli provider)) (list d)

  abbrev pub create_callback : Fields → Json → ℕ → Bool → Result ProfileError (Outcome Fields)
  create_callback p payload revision there =
      spread_in payload >>= λ vs. ok (next (arr (list_items (vs ++ (obj p ∷ [])))) p)

  abbrev created :
      Fields
      → Result (StoreError ProfileError) (Mutated Fields)
      → Result (StoreError ProfileError) Fields
  created p (ok m) = ok p
  created p (err e) = err e

  unfoldable pub create : ℕ → Text → Json → Disk → Disk × Result (StoreError ProfileError) Fields
  create now fresh input d = elim (normalize_profile now fresh input end >>= validate) [
    | err e ↦ (d, err (thrown e))
    | ok p ↦
        let (d', done) = mutate works profiles_schema (create_callback p) now d in
        (d', created p done)
  ]

  abbrev pub changed_profile : ℕ → Text → Text → Json → Json → Result ProfileError Fields
  changed_profile now fresh id patch current =
      normalize_profile now fresh (obj (patched current patch id)) (own_fields current) >>= validate

  abbrev pub update_callback :
      ℕ → Text → Text → Json → Json → ℕ → Bool → Result ProfileError (Outcome Fields)
  update_callback now fresh id patch payload revision there = rows_in payload >>= λ vs.
      replace_first id (changed_profile now fresh id patch) vs >>= λ r.
      ok (next (arr (list_items r.0)) r.1)

  abbrev result_of :
      Result (StoreError ProfileError) (Mutated Fields)
      → Result (StoreError ProfileError) (Option Fields)
  result_of (ok m) = ok m.result
  result_of (err e) = err e

  unfoldable pub update :
      ℕ → Text → Text → Json → Disk → Disk × Result (StoreError ProfileError) (Option Fields)
  update now fresh id patch d =
      let (d', done) = mutate works profiles_schema (update_callback now fresh id patch) now d in
      (d', result_of done)

  abbrev pub remove_callback : Text → Json → ℕ → Bool → Result ProfileError (Outcome Bool)
  remove_callback id payload revision there = rows_in payload >>= λ vs. without_id id vs >>= λ kept.
      ok (if length kept == length vs then unchanged else next (arr (list_items kept)) true)

  abbrev changed_of :
      Result (StoreError ProfileError) (Mutated Bool) → Result (StoreError ProfileError) Bool
  changed_of (ok m) = ok m.changed
  changed_of (err e) = err e

  unfoldable pub remove : ℕ → Text → Disk → Disk × Result (StoreError ProfileError) Bool
  remove now id d =
      let (d', done) = mutate works profiles_schema (remove_callback id) now d in
      (d', changed_of done)
