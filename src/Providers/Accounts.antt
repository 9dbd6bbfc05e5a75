-- ===== src/Providers/Accounts.antt =====
-- lib/store.js, createStore: the provider accounts over the durable store. `parse` is JSON.parse,
-- `parse_url` the URL constructor, `port` the port of the proxy, `now` Date.now(), and `fresh`
-- crypto.randomUUID(). The answer of the reference resolver is an argument.
use cli_provider_router.Prelude.{
  ℕ, Bool, true, not, ◌||◌, Option, none, some, or_else, ◌==◌, if◌then◌else◌, List, [], ◌∷◌, ◌++◌,
  length, Text, codes, text_eq, is_empty, mem_text, trim, Result, ok, err, ◌>>=◌, ◌>>◌, require,
}
use cli_provider_router.Json.{
  Json, null, num, str, arr, obj, Fields, end, field, lookup, to_text, or_blank,
}
use cli_provider_router.Atomic.{Disk, Step, StateError}
use cli_provider_router.Durable.{
  Current, StoreError, thrown, state_error, Outcome, unchanged, next, Mutated, is_text,
  insert_field, load, mutate,
}
use cli_provider_router.Hop.Routes.{is_given}
use cli_provider_router.Settings.{insert_all, own_fields}
use cli_provider_router.Profiles.Store.{list_items}
use cli_provider_router.Providers.Config.{parse_config, delete_field}
use cli_provider_router.Providers.Build.{Url, Options, build_settings_config, codex_settings}
use cli_provider_router.Providers.Summary.{prop, config_value, current_base_url}
use cli_provider_router.Providers.Summary.{Summary, summarize}
use cli_provider_router.Providers.Store.{
  ProviderError, bad_app_type, name_required, type_error, in_use, app_types, providers_schema,
  providers_in, is_provider, is_wanted, find_item, without_items, change_item, Patch,
  given_settings, patch_claude, text_or, or_catalog,
}
use cli_provider_router.Providers.Imports.{Imported, has_null, import_list}

-- The fields of a new provider.
abbrev pub provider_fields : Text → Text → Text → Json → ℕ → Fields
provider_fields id app_type name cfg now = field (codes "id") (str id) (
    field (codes "appType") (str app_type) (
      field (codes "name") (str (trim name)) (
        field (codes "source") (str (codes "local"))
          (field (codes "settingsConfig") cfg (field (codes "createdAt") (num now) end)))))

abbrev pub map_ok : {E A B : Type 0} → (A → B) → Result E A → Result E B
map_ok f (ok a) = ok (f a)
map_ok f (err e) = err e

-- The result of a mutate, which its callback gives where something changed.
abbrev pub result_of :
    {A : Type 0}
    → A
    → Result (StoreError ProviderError) (Mutated A)
    → Result (StoreError ProviderError) A
result_of d (ok m) = ok (or_else m.result d)
result_of d (err e) = err e

abbrev pub payload_of : Result StateError Current → Result (StoreError ProviderError) (List Json)
payload_of (err e) = err (state_error e)
payload_of (ok c) = elim (providers_in c.payload) [ ok vs ↦ ok vs | err e ↦ err (thrown e) ]

abbrev pub or_thrown : {A : Type 0} → Result ProviderError A → Result (StoreError ProviderError) A
or_thrown (ok a) = ok a
or_thrown (err e) = err (thrown e)

module _ (works : Step → Bool) (parse : Text → Option Json) (parse_url : Text → Option Url)
    (port : Text) where
  unfoldable pub load_store : Disk → Disk × Result (StoreError ProviderError) (List Json)
  load_store d = let (d', current) = load works providers_schema d in (d', payload_of current)

  unfoldable pub get_provider :
      Text → Text → Disk → Disk × Result (StoreError ProviderError) (Option Json)
  get_provider app_type id d =
      let (d', vs) = load_store d in
      (d', vs >>= λ vs. or_thrown (find_item (is_wanted app_type id) vs))

  -- The type that listProviders asks for; an empty one asks for none.
  unfoldable pub summaries : Text → List Json → Result ProviderError (List Summary)
  summaries app_type [] = ok []
  summaries app_type (null ∷ vs) = err type_error
  summaries app_type (v ∷ vs) =
      let rest = summaries app_type vs in
      if is_empty app_type || is_text app_type (prop (codes "appType") (some v))
      then elim (summarize parse (own_fields v)) [
        | none ↦ err type_error
        | some s ↦ (rest >>= λ more. ok (s ∷ more))
      ]
      else rest

  unfoldable pub list_providers :
      Text → Disk → Disk × Result (StoreError ProviderError) (List Summary)
  list_providers app_type d =
      let (d', vs) = load_store d in (d', vs >>= λ vs. or_thrown (summaries app_type vs))

  abbrev pub new_settings : Text → Text → Options → Option Json → Json
  new_settings app_type id o given =
      or_else given
        (obj (build_settings_config parse_url port app_type (record o { provider_id = id })))

  abbrev pub create_callback : Fields → Json → ℕ → Bool → Result ProviderError (Outcome Fields)
  create_callback p payload revision there =
      providers_in payload >>= λ vs. ok (next (arr (list_items (vs ++ (obj p ∷ [])))) p)

  -- The answer has the whole provider, of which the code gives the id, the type and the name.
  unfoldable pub create_provider :
      ℕ
      → Text
      → Text
      → Text
      → Options
      → Option Json
      → Disk
      → Disk × Result (StoreError ProviderError) Fields
  create_provider now fresh app_type name o settings d =
      if not (mem_text app_type app_types)
      then (d, err (thrown bad_app_type))
      else if is_empty (trim name)
      then (d, err (thrown name_required))
      else let cfg = new_settings app_type fresh o (given_settings settings) in
        let p = provider_fields fresh app_type name cfg now in
        let (d', done) = mutate works providers_schema (create_callback p) now d in
        (d', result_of p done)

  -- The branch of a Codex provider: the settings are built again from the patch and the old ones.
  unfoldable pub patch_codex : Text → Patch → Fields → Fields
  patch_codex id patch cfg =
      let key = or_blank (prop (codes "OPENAI_API_KEY") (lookup (codes "auth") cfg)) in
      let rebuilt = codex_settings parse_url port (record {
        base_url = text_or patch.base_url (to_text (current_base_url cfg));
        auth_token = if is_empty patch.auth_token then to_text key else patch.auth_token;
        model = text_or patch.model (config_value cfg (codes "model"));
        models = or_catalog patch.models cfg;
        provider_id = id;
        use_proxy = or_else patch.use_proxy (is_given (lookup (codes "proxyTarget") cfg));
        alias_map = none;
      }) in
      let cfg1 = insert_all cfg rebuilt in
      if is_given (lookup (codes "proxyTarget") rebuilt)
      then cfg1
      else delete_field (codes "proxyTarget") cfg1

  abbrev pub patched_settings : Text → Text → Patch → Json → Result ProviderError Json
  patched_settings app_type id patch null = err type_error
  patched_settings app_type id patch cfg = ok (
      obj (
        if text_eq app_type (codes "claude")
        then patch_claude patch (own_fields cfg)
        else patch_codex id patch (own_fields cfg)))

  abbrev pub new_or_patched : Text → Text → Patch → Fields → Result ProviderError Json
  new_or_patched app_type id patch p = elim (given_settings patch.settings_config) [
    | some cfg ↦ ok cfg
    | none ↦
        patched_settings app_type id patch (parse_config parse (lookup (codes "settingsConfig") p))
  ]

  unfoldable pub changed_provider : Text → Text → Patch → Fields → Result ProviderError Fields
  changed_provider app_type id patch p = new_or_patched app_type id patch p >>= λ cfg. ok (
      insert_field (codes "settingsConfig") cfg
        (if is_empty patch.name then p else insert_field (codes "name") (str (trim patch.name)) p))

  abbrev pub update_callback :
      Text → Text → Patch → Json → ℕ → Bool → Result ProviderError (Outcome (Text × Text))
  update_callback app_type id patch payload revision there = providers_in payload >>= λ vs.
      change_item (is_provider app_type id) (changed_provider app_type id patch) vs >>= λ changed.
      ok (next (arr (list_items changed)) (id, app_type))

  unfoldable pub update_provider :
      ℕ → Text → Text → Patch → Disk → Disk × Result (StoreError ProviderError) (Text × Text)
  update_provider now app_type id patch d =
      let (d', done) = mutate works providers_schema (update_callback app_type id patch) now d in
      (d', result_of (id, app_type) done)

  abbrev pub delete_callback : Text → Text → Json → ℕ → Bool → Result ProviderError (Outcome Bool)
  delete_callback app_type id payload revision there = providers_in payload >>= λ vs.
      without_items (is_provider app_type id) vs >>= λ kept.
      ok (if length kept == length vs then unchanged else next (arr (list_items kept)) true)

  -- What the reference resolver answers, where createStore was given one or setReferenceResolver has
  -- set one; `none` is a store without.
  abbrev references_of : Option (List Fields) → List Fields
  references_of none = []
  references_of (some references) = references

  unfoldable pub delete_provider :
      ℕ → Option (List Fields) → Text → Text → Disk → Disk × Result (StoreError ProviderError) Bool
  delete_provider now resolved app_type id d = elim (references_of resolved) [
    | p ∷ ps ↦ (d, err (thrown (in_use (p ∷ ps))))
    | [] ↦
        (let (d', done) = mutate works providers_schema (delete_callback app_type id) now d in
          (d', map_ok (λ m. m.changed) done))
  ]

  -- An item that is null throws where the keys are read.
  abbrev pub import_callback :
      ℕ → List Imported → Json → ℕ → Bool → Result ProviderError (Outcome (ℕ × ℕ × ℕ))
  import_callback now rows payload revision there = providers_in payload >>= λ vs.
      require (not (has_null vs)) type_error
      >> (let (list, imported, updated) = import_list parse now rows vs in
          ok (next (arr (list_items list)) (imported, updated, length rows)))

  unfoldable pub import_from_cc_switch :
      ℕ → List Imported → Disk → Disk × Result (StoreError ProviderError) (ℕ × ℕ × ℕ)
  import_from_cc_switch now rows d =
      let (d', done) = mutate works providers_schema (import_callback now rows) now d in
      (d', result_of (0, 0, 0) done)
