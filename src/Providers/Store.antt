-- ===== src/Providers/Store.antt =====
-- lib/store.js, createStore: the items of the provider list, and what an update does to one.
use cli_provider_router.Prelude.{
  Bool, true, false, ◌&&◌, ◌||◌, Option, none, some, if◌then◌else◌, List, [], ◌∷◌, Text, codes,
  is_empty, Result, ok, err, ◌>>=◌,
}
use cli_provider_router.Json.{Json, null, str, arr, obj, nil, Fields, lookup}
use cli_provider_router.Durable.{Schema, is_text, insert_field}
use cli_provider_router.Ledger.Event.{json_or_null}
use cli_provider_router.Settings.{own_fields}
use cli_provider_router.Profiles.Store.{items_list, list_items, migrate_list}
use cli_provider_router.Providers.Config.{parse_model_list, delete_field, apply_alias_map}
use cli_provider_router.Providers.Build.{model_catalog}
use cli_provider_router.Providers.Summary.{prop, catalog_of}

-- The errors that are thrown; `in_use` has the profiles that refer to the provider.
pub data ProviderError : Type 0 where
  bad_app_type name_required provider_not_found type_error : ProviderError
  in_use : List Fields → ProviderError

abbrev pub app_types : List Text
app_types = codes "claude" ∷ codes "codex" ∷ []

abbrev pub providers_schema : Schema
providers_schema = record {
  name = codes "cpr.providers";
  version = 1;
  payload_key = codes "providers";
  default_payload = arr nil;
  migrate_legacy = migrate_list (codes "providers");
  backups = 2;
}

-- The list that a callback is given; the methods of an array throw for another value.
unfoldable pub providers_in : Json → Result ProviderError (List Json)
providers_in (arr vs) = ok (items_list vs)
providers_in v = err type_error

-- Whether an item is the provider; null has no property.
unfoldable pub is_provider : Text → Text → Json → Result ProviderError Bool
is_provider app_type id null = err type_error
is_provider app_type id v =
    ok (
      is_text app_type (prop (codes "appType") (some v)) && is_text id (prop (codes "id") (some v)))

-- getProvider's test; an empty type asks for none.
unfoldable pub is_wanted : Text → Text → Json → Result ProviderError Bool
is_wanted app_type id null = err type_error
is_wanted app_type id v = ok (
    is_text id (prop (codes "id") (some v))
    && (is_empty app_type || is_text app_type (prop (codes "appType") (some v))))

-- `list.find(test)`
unfoldable pub find_item :
    (Json → Result ProviderError Bool) → List Json → Result ProviderError (Option Json)
find_item test [] = ok none
find_item test (v ∷ vs) =
    let rest = find_item test vs in test v >>= λ here. if here then ok (some v) else rest

-- `list.filter(p => !test(p))`
unfoldable pub without_items :
    (Json → Result ProviderError Bool) → List Json → Result ProviderError (List Json)
without_items test [] = ok []
without_items test (v ∷ vs) =
    let rest = without_items test vs in
    test v >>= λ here. rest >>= λ kept. ok (if here then kept else v ∷ kept)

-- The first item of the test, changed in place.
unfoldable pub change_item :
    (Json → Result ProviderError Bool)
    → (Fields → Result ProviderError Fields)
    → List Json
    → Result ProviderError (List Json)
change_item test change [] = err provider_not_found
change_item test change (v ∷ vs) =
    let rest = change_item test change vs in
    test v >>= λ here.
    if here
    then (change (own_fields v) >>= λ p. ok (obj p ∷ vs))
    else (rest >>= λ more. ok (v ∷ more))

-- The fields of a patch; `none` is undefined.
pub record Patch : Type 0 where
  pub name : Text
  pub base_url : Option Text
  pub auth_token : Text
  pub model : Option Text
  pub models : Option Json
  pub use_proxy : Option Bool
  pub settings_config : Option Json
  pub alias_map : Option Json

-- Settings that are given as an object.
abbrev pub given_settings : Option Json → Option Json
given_settings (some (obj fs)) = some (obj fs)
given_settings (some (arr vs)) = some (arr vs)
given_settings v = none

-- A field that is undefined is kept, and one that is empty is deleted.
abbrev pub set_or_delete : Text → Option Text → Fields → Fields
set_or_delete k none env = env
set_or_delete k (some t) env = if is_empty t then delete_field k env else insert_field k (str t) env

abbrev pub set_if_given : Text → Text → Fields → Fields
set_if_given k t env = if is_empty t then env else insert_field k (str t) env

abbrev pub is_set : {A : Type 0} → Option A → Bool
is_set none = false
is_set (some a) = true

abbrev pub text_json : Option Text → Option Json
text_json none = none
text_json (some t) = some (str t)

-- The branch of a Claude provider; an `env` that is no object is outside the model.
unfoldable pub patch_claude : Patch → Fields → Fields
patch_claude patch cfg =
    let env0 = own_fields (json_or_null (lookup (codes "env") cfg)) in
    let env1 = set_or_delete (codes "ANTHROPIC_MODEL") patch.model (
      set_if_given (codes "ANTHROPIC_AUTH_TOKEN") patch.auth_token
        (set_or_delete (codes "ANTHROPIC_BASE_URL") patch.base_url env0)) in
    let primary =
      if is_set patch.model then text_json patch.model else lookup (codes "ANTHROPIC_MODEL") env1 in
    let cfg1 = insert_field (codes "env") (obj (apply_alias_map patch.alias_map env1)) cfg in
    if is_set patch.models || is_set patch.model
    then insert_field (codes "modelCatalog") (model_catalog (parse_model_list patch.models primary))
        cfg1
    else cfg1

abbrev pub text_or : Option Text → Text → Text
text_or none t = t
text_or (some s) t = s

abbrev pub or_catalog : Option Json → Fields → Option Json
or_catalog (some v) cfg = some v
or_catalog none cfg = elim (catalog_of cfg) [ none ↦ none | some ms ↦ some (arr (list_items ms)) ]
