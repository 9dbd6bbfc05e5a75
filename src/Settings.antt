-- ===== src/Settings.antt =====
-- lib/settings-store.js: settings over the durable store, with defaults under them.
pub mod Merge
pub mod Updates
use cli_provider_router.Prelude.{
  ℕ, suc, ◌+◌, Bool, true, false, Option, none, some, or_else, [], ◌∷◌, Text, codes, Result, ok,
  err,
}
use cli_provider_router.Json.{
  Json, null, bool, num, str, arr, obj, Items, nil, cons, Fields, end, field, decimal,
}
use cli_provider_router.Atomic.{Disk, Step, StateError}
use cli_provider_router.Durable.{
  Schema, Current, StoreError, Outcome, next, Mutated, insert_field, load, mutate,
}

-- `migrateLegacy`: null and bare objects.
abbrev pub migrate_settings : Json → Option Json
migrate_settings null = some (obj end)
migrate_settings (obj fs) = some (obj fs)
migrate_settings _ = none

abbrev pub settings_schema : Schema
settings_schema = record {
  name = codes "cpr.settings";
  version = 1;
  payload_key = codes "settings";
  default_payload = obj end;
  migrate_legacy = migrate_settings;
  backups = 2;
}

-- `{ ...fields, ...more }`
unfoldable pub insert_all : Fields → Fields → Fields
insert_all fs end = fs
insert_all fs (field k v more) = insert_all (insert_field k v fs) more

-- The fields that an array and a string spread into, from an index on.
abbrev pub item_fields : ℕ → Items → Fields
item_fields i nil = end
item_fields i (cons v vs) = field (decimal i) v (item_fields (suc i) vs)

abbrev pub unit_fields : ℕ → Text → Fields
unit_fields i [] = end
unit_fields i (c ∷ s) = field (decimal i) (str (c ∷ [])) (unit_fields (suc i) s)

-- The fields that `...value` gives.
abbrev pub own_fields : Json → Fields
own_fields (obj fs) = fs
own_fields (arr vs) = item_fields 0 vs
own_fields (str s) = unit_fields 0 s
own_fields _ = end

pub data SettingsError : Type 0 where
  not_an_object : SettingsError
  store_error : StoreError ⊥ → SettingsError

-- `{ ...defaults, ...current, ...patch }`
unfoldable pub merged : Fields → Json → Fields → Fields
merged defaults current patch = insert_all (insert_all defaults (own_fields current)) patch

abbrev pub update_callback : Fields → Fields → Json → ℕ → Bool → Result ⊥ (Outcome Fields)
update_callback defaults patch current revision there =
    ok (next (obj (merged defaults current patch)) (merged defaults current patch))

abbrev pub map_error : {E F A : Type 0} → (E → F) → Result E A → Result F A
map_error f (ok a) = ok a
map_error f (err e) = err (f e)

-- `.result` of what `mutate` returns, which its callback always gives.
abbrev pub result_of : Result (StoreError ⊥) (Mutated Fields) → Result SettingsError Fields
result_of (ok m) = ok (or_else m.result end)
result_of (err e) = err (store_error e)

module _ (works : Step → Bool) (defaults : Fields) where
  unfoldable pub get_all : Disk → Disk × Result StateError Fields
  get_all d =
      let (d', current) = load works settings_schema d in
      (d', elim current [ err e ↦ err e | ok c ↦ ok (insert_all defaults (own_fields c.payload)) ])

  unfoldable pub update : Json → ℕ → Disk → Disk × Result SettingsError Fields
  update (obj patch) now d =
      let (d', done) = mutate works settings_schema (update_callback defaults patch) now d in
      (d', result_of done)
  update _ now d = (d, err not_an_object)
