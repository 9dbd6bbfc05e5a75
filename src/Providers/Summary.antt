-- ===== src/Providers/Summary.antt =====
-- lib/store.js, summarize: what is shown of a provider, with its token masked.
use cli_provider_router.Prelude.{
  Bool, false, not, ◌&&◌, Option, none, some, ◌==◌, if◌then◌else◌, List, [], ◌∷◌, ◌++◌, any, map,
  Text, codes, text_eq, is_empty, lower,
}
use cli_provider_router.Json.{
  Json, null, bool, num, str, arr, obj, Items, nil, cons, Fields, lookup, to_text, truthy, or_blank,
}
use cli_provider_router.Durable.{is_text}
use cli_provider_router.Hop.Routes.{is_given, or_field}
use cli_provider_router.Ledger.Event.{json_or_null}
use cli_provider_router.Ledger.Rollup.{bool_eq}
use cli_provider_router.Settings.{own_fields}
use cli_provider_router.Providers.Config.{
  parse_config, mask_token, toml_value, unique_models, alias_tier_keys,
}

pub record Summary : Type 0 where
  pub id : Option Json
  pub app_type : Option Json
  pub name : Option Json
  pub source : Json
  pub base_url : Json
  pub protocol : Text
  pub wire_api : Text
  pub model : Json
  pub model_options : List Json
  pub alias_only : Bool
  pub alias_map : List (Text × (Json × Json))
  pub use_proxy : Bool
  pub token_mask : Text
  pub has_token : Bool
  pub is_official : Bool

-- `value.key`, for a value that is not null; only objects have the keys that are read here.
abbrev pub prop : Text → Option Json → Option Json
prop k (some (obj fs)) = lookup k fs
prop k v = none

-- `catalog.models.map(m => m && m.model).filter(Boolean)` of an array.
abbrev pub item_models : Items → List Json
item_models nil = []
item_models (cons v vs) =
    let m = json_or_null (prop (codes "model") (some v)) in
    let rest = item_models vs in if truthy m then m ∷ rest else rest

abbrev pub models_in : Option Json → Option (List Json)
models_in (some (arr vs)) = some (item_models vs)
models_in v = none

unfoldable pub catalog_of : Fields → Option (List Json)
catalog_of cfg = models_in (prop (codes "models") (lookup (codes "modelCatalog") cfg))

abbrev pub catalog_or_none : Fields → List Json
catalog_or_none cfg = elim (catalog_of cfg) [ none ↦ [] | some ms ↦ ms ]

-- `===` of two values that are not the same object.
abbrev pub same_value : Json → Json → Bool
same_value (str a) (str b) = text_eq a b
same_value (num a) (num b) = a == b
same_value (bool a) (bool b) = bool_eq a b
same_value a b = false

-- Each value that is given, once.
unfoldable pub ordered_from : List Json → List Json → List Json
ordered_from seen [] = []
ordered_from seen (v ∷ vs) =
    let skipped = ordered_from seen vs in
    let kept = ordered_from (v ∷ seen) vs in
    if truthy v && not (any (same_value v) seen) then v ∷ kept else skipped

unfoldable pub alias_map_of : List (Text × Text) → Fields → List (Text × (Json × Json))
alias_map_of [] env = []
alias_map_of ((tier, key) ∷ tiers) env =
    let rest = alias_map_of tiers env in
    if is_given (lookup key env)
    then (tier, (json_or_null (lookup key env), or_blank (lookup (key ++ codes "_NAME") env)))
      ∷ rest
    else rest

abbrev pub source_of : Fields → Json
source_of p = json_or_null (or_field (lookup (codes "source") p) (some (str (codes "local"))))

unfoldable pub summarize_claude : Fields → Fields → Summary
summarize_claude p cfg =
    let env = own_fields (json_or_null (lookup (codes "env") cfg)) in
    let base_url = or_blank (lookup (codes "ANTHROPIC_BASE_URL") env) in
    let model = or_blank (lookup (codes "ANTHROPIC_MODEL") env) in
    let token =
      or_field (lookup (codes "ANTHROPIC_AUTH_TOKEN") env)
        (lookup (codes "ANTHROPIC_API_KEY") env) in
    let options = unique_models (
      lookup (codes "ANTHROPIC_MODEL") env ∷ map (λ k. lookup k.1 env) alias_tier_keys
      ++ map (λ m. some m) (catalog_or_none cfg)) in
    record {
      id = lookup (codes "id") p;
      app_type = lookup (codes "appType") p;
      name = lookup (codes "name") p;
      source = source_of p;
      base_url = base_url;
      protocol = codes "anthropic";
      wire_api = codes "messages";
      model = model;
      model_options = map (λ m. str m) options;
      alias_only = truthy base_url && not (truthy model);
      alias_map = alias_map_of alias_tier_keys env;
      use_proxy = is_given (lookup (codes "proxyTarget") cfg);
      token_mask = mask_token token;
      has_token = is_given token;
      is_official = not (truthy base_url);
    }

-- `tomlValue(cfg.config, key)`
abbrev pub config_value : Fields → Text → Text
config_value cfg key = toml_value (to_text (or_blank (lookup (codes "config") cfg))) key

unfoldable pub current_base_url : Fields → Json
current_base_url cfg = json_or_null (
    or_field (prop (codes "originalBaseUrl") (lookup (codes "proxyTarget") cfg))
      (some (str (config_value cfg (codes "base_url")))))

unfoldable pub summarize_codex : Fields → Fields → Summary
summarize_codex p cfg =
    let base_url = current_base_url cfg in
    let model = config_value cfg (codes "model") in
    let wire = config_value cfg (codes "wire_api") in
    let auth = lookup (codes "auth") cfg in
    let token =
      or_field (prop (codes "OPENAI_API_KEY") auth)
        (prop (codes "access_token") (prop (codes "tokens") auth)) in
    record {
      id = lookup (codes "id") p;
      app_type = lookup (codes "appType") p;
      name = lookup (codes "name") p;
      source = source_of p;
      base_url = base_url;
      protocol = codes "openai";
      wire_api = lower (if is_empty wire then codes "responses" else wire);
      model = str model;
      model_options = ordered_from [] (str model ∷ catalog_or_none cfg);
      alias_only = false;
      alias_map = [];
      use_proxy = is_given (lookup (codes "proxyTarget") cfg);
      token_mask = mask_token token;
      has_token = is_given token;
      is_official = not (truthy base_url);
    }

-- Settings that are null throw, and give `none`.
unfoldable pub summarize : (Text → Option Json) → Fields → Option Summary
summarize parse p = elim (parse_config parse (lookup (codes "settingsConfig") p)) [
  | null ↦ none
  | cfg ↦
      if is_text (codes "claude") (lookup (codes "appType") p)
      then some (summarize_claude p (own_fields cfg))
      else some (summarize_codex p (own_fields cfg))
]
