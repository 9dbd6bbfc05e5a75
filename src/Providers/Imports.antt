-- ===== src/Providers/Imports.antt =====
-- lib/store.js, importFromCcSwitch: what an import does to the list of providers. `parse` is JSON.parse,
-- `now` is Date.now(), and the rows are those of the database of CC Switch.
use cli_provider_router.Prelude.{
  ℕ, ◌+◌, Bool, true, false, not, ◌||◌, Option, none, some, if◌then◌else◌, List, [], ◌∷◌, ◌++◌,
  Text, codes, text_eq, mem_text,
}
use cli_provider_router.Json.{Json, null, num, str, obj, Fields, end, field, lookup}
use cli_provider_router.Durable.{insert_field}
use cli_provider_router.Ledger.Event.{json_or_null}
use cli_provider_router.Ledger.Query.{printed}
use cli_provider_router.Settings.{insert_all, own_fields}
use cli_provider_router.Providers.Config.{parse_config}
use cli_provider_router.Providers.Summary.{prop}
use cli_provider_router.Providers.Store.{app_types}

-- A row of the database.
pub record Imported : Type 0 where
  pub id : Text
  pub app_type : Text
  pub name : Text
  pub settings_config : Json

abbrev pub printed_prop : Text → Json → Text
printed_prop k v = printed (prop k (some v))

-- `${p.appType}:${p.id}`
unfoldable pub key_of : Json → Text
key_of v = printed_prop (codes "appType") v ++ codes ":" ++ printed_prop (codes "id") v

unfoldable pub row_key : Imported → Text
row_key r = r.app_type ++ codes ":" ++ r.id

unfoldable pub has_key : Text → List Json → Bool
has_key k [] = false
has_key k (v ∷ vs) = text_eq (key_of v) k || has_key k vs

-- The item at the last index of the key, which is the one that the Map keeps.
unfoldable pub replace_last : Text → (Json → Json) → List Json → List Json
replace_last k change [] = []
replace_last k change (v ∷ vs) =
    let rest = replace_last k change vs in
    if has_key k vs then v ∷ rest else if text_eq (key_of v) k then change v ∷ vs else v ∷ rest

-- The fields of the environment that CC Switch does not manage.
abbrev pub local_keys : List Text
local_keys = codes "ANTHROPIC_API_KEY" ∷ codes "CPR_TOOLS" ∷ codes "MULTICC_TOOLS" ∷ []

abbrev pub keep_local : List Text → Fields → Fields
keep_local [] env = end
keep_local (k ∷ ks) env = elim (lookup k env) [
  | none ↦ keep_local ks env
  | some v ↦ field k v (keep_local ks env)
]

-- `{ ...env, ...local }` in the settings of the merged provider; settings that are no object are
-- outside the model.
unfoldable pub with_local : Fields → Json → Json
with_local end settings = settings
with_local (field k v fs) settings =
    let env = own_fields (json_or_null (prop (codes "env") (some settings))) in
    obj (insert_field (codes "env") (obj (insert_all env (field k v fs))) (own_fields settings))

unfoldable pub merged_settings : Fields → Json → Json
merged_settings entry prev =
    let previous = prop (codes "env") (prop (codes "settingsConfig") (some prev)) in
    let kept = keep_local local_keys (own_fields (json_or_null previous)) in
    with_local kept (json_or_null (lookup (codes "settingsConfig") entry))

unfoldable pub merge_entry : Fields → Json → Json
merge_entry entry prev = obj (
    insert_field (codes "settingsConfig") (merged_settings entry prev)
      (insert_all (own_fields prev) entry))

-- What an import has so far: the items that were there, those that it added, and its counts.
pub record Import : Type 0 where
  pub old : List Json
  pub added : List Json
  pub imported : ℕ
  pub updated : ℕ

abbrev pub has_null : List Json → Bool
has_null [] = false
has_null (null ∷ vs) = true
has_null (v ∷ vs) = has_null vs

module _ (parse : Text → Option Json) (now : ℕ) where
  unfoldable pub entry_of : Imported → Fields
  entry_of r = field (codes "id") (str r.id) (
      field (codes "appType") (str r.app_type) (
        field (codes "name") (str r.name) (
          field (codes "source") (str (codes "ccswitch")) (
            field (codes "settingsConfig") (parse_config parse (some r.settings_config))
              (field (codes "importedAt") (num now) end)))))

  unfoldable pub import_row : Imported → Import → Import
  import_row r s =
      if not (mem_text r.app_type app_types)
      then s
      else if has_key (row_key r) s.old
      then record s {
        old = replace_last (row_key r) (merge_entry (entry_of r)) s.old;
        updated = s.updated + 1;
      }
      else record s { added = s.added ++ (obj (entry_of r) ∷ []); imported = s.imported + 1 }

  unfoldable pub import_rows : List Imported → Import → Import
  import_rows [] s = s
  import_rows (r ∷ rs) s = import_rows rs (import_row r s)

  -- The list with what was imported, and the numbers of new and of refreshed providers.
  unfoldable pub import_list : List Imported → List Json → List Json × ℕ × ℕ
  import_list rs vs =
      let done = import_rows rs (record { old = vs; added = []; imported = 0; updated = 0 }) in
      (done.old ++ done.added, done.imported, done.updated)
