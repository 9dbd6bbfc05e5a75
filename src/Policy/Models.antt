-- ===== src/Policy/Models.antt =====
-- lib/model-policy.js: which model of a session a provider serves, and which is sent. `parse` is
-- JSON.parse and `parse_toml` is TOML.parse, `none` where they throw.
use cli_provider_router.Prelude.{
  Bool, false, not, ◌&&◌, Option, none, some, ◌==◌, if◌then◌else◌, List, [], ◌∷◌, ◌++◌, map, Text,
  codes, is_empty, mem_text, trim, lower,
}
use cli_provider_router.Json.{
  Json, str, arr, obj, Items, nil, cons, Fields, end, field, lookup, to_text, truthy, or_blank,
}
use cli_provider_router.Durable.{insert_field}
use cli_provider_router.Hop.Routes.{is_given, or_field}
use cli_provider_router.Ledger.Event.{is_nullish, json_or_null}
use cli_provider_router.Settings.{own_fields}
use cli_provider_router.Providers.Config.{split_models, alias_tier_keys}
use cli_provider_router.Providers.Summary.{prop}

-- `[^\]]*\]$` behind a bracket.
abbrev pub closes : Text → Bool
closes [] = false
closes (c ∷ []) = c == 93
closes (c ∷ d ∷ s) = not (c == 93) && closes (d ∷ s)

-- `replace(/\[[^\]]*\]$/, '')`
unfoldable pub cut_suffix : Text → Text
cut_suffix [] = []
cut_suffix (c ∷ s) = let rest = cut_suffix s in if c == 91 && closes s then [] else c ∷ rest

unfoldable pub strip_model_suffix : Option Json → Text
strip_model_suffix model = trim (cut_suffix (trim (to_text (or_blank model))))

unfoldable pub strip_text : Text → Text
strip_text t = strip_model_suffix (some (str t))

-- ALIAS_TIER_REGEX
unfoldable pub is_tier : Text → Bool
is_tier t = mem_text (lower t) (codes "default" ∷ map (λ k. k.0) alias_tier_keys)

-- The items of a value of addModels.
abbrev pub add_item : Option Json → List Text → List Text
add_item item target =
    let model = trim (to_text (or_blank item)) in
    if not (is_empty model) && not (mem_text model target) then target ++ (model ∷ []) else target

unfoldable pub add_items : Items → List Text → List Text
add_items nil target = target
add_items (cons v vs) target = add_items vs (add_item (some v) target)

unfoldable pub add_texts : List Text → List Text → List Text
add_texts [] target = target
add_texts (t ∷ ts) target = add_texts ts (add_item (some (str t)) target)

-- `addModels(target, [value])`
unfoldable pub add_models : Option Json → List Text → List Text
add_models (some (arr vs)) target = add_items vs target
add_models value target = add_texts (split_models (to_text (or_blank value)) []) target

-- `entry && (entry.model || entry.id)`, where it is given.
abbrev pub entry_models : Items → Items
entry_models nil = nil
entry_models (cons v vs) =
    let m = or_field (prop (codes "model") (some v)) (prop (codes "id") (some v)) in
    let rest = entry_models vs in if is_given m then cons (json_or_null m) rest else rest

abbrev pub array_items : Option Json → Items
array_items (some (arr vs)) = vs
array_items v = nil

unfoldable pub catalog_models : Fields → Items
catalog_models cfg =
    entry_models (array_items (prop (codes "models") (lookup (codes "modelCatalog") cfg)))

pub record Policy : Type 0 where
  pub app_type : Text
  pub model : Json
  pub model_options : List Text
  pub alias_map : Fields
  pub is_official : Bool

-- `provider.aliasMap && provider.aliasMap[tier]`; a map that is there and not given hides what is
-- configured.
abbrev pub explicit_alias : Text → Option Json → Option Json
explicit_alias tier none = none
explicit_alias tier (some v) = if truthy v then prop tier (some v) else some v

abbrev pub alias_entry : Text → Text → Option Json → Fields → Option Json
alias_entry tier key aliases env = elim (explicit_alias tier aliases) [
  | none ↦ lookup key env
  | some v ↦ some v
]

-- `entry && typeof entry === 'object' ? entry.model : entry`
abbrev pub mapped_model : Option Json → Option Json
mapped_model (some (obj fs)) = lookup (codes "model") fs
mapped_model (some (arr vs)) = none
mapped_model entry = entry

-- The loop over the tiers, with the map and the options that it has built.
unfoldable pub tier_aliases :
    List (Text × Text) → Option Json → Fields → Fields × List Text → Fields × List Text
tier_aliases [] aliases env found = found
tier_aliases ((tier, key) ∷ tiers) aliases env (map, options) =
    let entry = alias_entry tier key aliases env in
    tier_aliases tiers aliases env (
      if is_nullish entry then map else insert_field tier (json_or_null entry) map,
      add_models (mapped_model entry) options,
    )

abbrev pub is_official_of : Fields → Json → Bool
is_official_of p base_url = elim (lookup (codes "isOfficial") p) [
  | none ↦ not (truthy base_url)
  | some v ↦ truthy v
]

abbrev pub given_map : Fields → Option Json → Fields
given_map end aliases = if is_given aliases then own_fields (json_or_null aliases) else end
given_map (field k v fs) aliases = field k v fs

-- The options that the provider itself names.
abbrev pub own_options : Fields → List Text
own_options p =
    add_models (lookup (codes "model") p)
      (add_models (lookup (codes "models") p) (add_models (lookup (codes "modelOptions") p) []))

abbrev pub or_value : Option Json → Option Json → Json
or_value a b = if is_given a then json_or_null a else or_blank b

unfoldable pub claude_policy : Fields → Fields → Policy
claude_policy p cfg =
    let env = own_fields (json_or_null (lookup (codes "env") cfg)) in
    let base_url =
      or_value (lookup (codes "baseUrl") p) (lookup (codes "ANTHROPIC_BASE_URL") env) in
    let model = or_value (lookup (codes "model") p) (lookup (codes "ANTHROPIC_MODEL") env) in
    let options = add_items (catalog_models cfg) (add_models (some model) (own_options p)) in
    let aliases = lookup (codes "aliasMap") p in
    let found = tier_aliases alias_tier_keys aliases env (end, options) in
    record {
      app_type = codes "claude";
      model = model;
      model_options = found.1;
      alias_map = given_map found.0 aliases;
      is_official = is_official_of p base_url;
    }

-- The provider that the configuration selects, if it is there.
abbrev pub selected_provider : Fields → Option Json
selected_provider parsed =
    let name = lookup (codes "model_provider") parsed in
    if is_given name
    then prop (to_text (json_or_null name)) (lookup (codes "model_providers") parsed)
    else none

unfoldable pub codex_policy : Fields → Fields → Fields → Policy
codex_policy p cfg parsed =
    let base_url = or_value (lookup (codes "baseUrl") p) (
      or_field (prop (codes "originalBaseUrl") (lookup (codes "proxyTarget") cfg))
        (prop (codes "base_url") (selected_provider parsed))) in
    let model = or_value (lookup (codes "model") p) (lookup (codes "model") parsed) in
    record {
      app_type = codes "codex";
      model = model;
      model_options = add_items (catalog_models cfg) (add_models (some model) (own_options p));
      alias_map = given_map end (lookup (codes "aliasMap") p);
      is_official = is_official_of p base_url;
    }

unfoldable pub other_policy : Text → Fields → Fields → Policy
other_policy kind p cfg = record {
  app_type = kind;
  model = or_blank (lookup (codes "model") p);
  model_options = add_items (catalog_models cfg) (own_options p);
  alias_map = given_map end (lookup (codes "aliasMap") p);
  is_official = is_official_of p (or_blank (lookup (codes "baseUrl") p));
}
