-- ===== src/Spawn/Resolve.antt =====
-- lib/spawn-env.js, resolveSpawnEnv: what a provider adds to the environment of a child. `parse` is
-- JSON.parse, `get_provider` is the store's, and `home` gives path.join(homesDir, providerId). The
-- file system of a Codex home is its two files; which of its calls fail is a parameter.
use cli_provider_router.Prelude.{
  Bool, true, false, not, ◌&&◌, Option, none, some, if◌then◌else◌, List, [], ◌∷◌, map, keep, Text,
  codes, text_eq, is_empty, starts_with, Result, ok, err,
}
use cli_provider_router.Json.{Json, null, str, Fields, end, field, lookup, to_text}
use cli_provider_router.Durable.{insert_field}
use cli_provider_router.Hop.Routes.{is_given, or_field}
use cli_provider_router.Ledger.Event.{json_or_null}
use cli_provider_router.Settings.{own_fields}
use cli_provider_router.Providers.Config.{parse_config, unique_models, alias_tier_keys}
use cli_provider_router.Spawn.CodexHome.{
  Stage, codex_home_stage, codex_auth, HomeStep, make_home, Home, materialize,
}

abbrev pub alias_model_keys : List Text
alias_model_keys = map (λ k. k.1) alias_tier_keys

-- ANTHROPIC_ALIAS_MODEL_PRIORITY
abbrev pub alias_model_priority : List Text
alias_model_priority =
    codes "ANTHROPIC_DEFAULT_SONNET_MODEL"
    ∷ keep (λ k. not (text_eq k (codes "ANTHROPIC_DEFAULT_SONNET_MODEL"))) alias_model_keys

-- CLAUDE_ROUTING_KEYS
abbrev pub claude_routing_keys : List Text
claude_routing_keys =
    codes "ANTHROPIC_BASE_URL"
    ∷ codes "ANTHROPIC_AUTH_TOKEN"
    ∷ codes "ANTHROPIC_API_KEY"
    ∷ codes "ANTHROPIC_MODEL"
    ∷ codes "ANTHROPIC_SMALL_FAST_MODEL"
    ∷ codes "ANTHROPIC_DEFAULT_OPUS_MODEL"
    ∷ codes "ANTHROPIC_DEFAULT_SONNET_MODEL"
    ∷ codes "ANTHROPIC_DEFAULT_HAIKU_MODEL"
    ∷ codes "ANTHROPIC_DEFAULT_FABLE_MODEL"
    ∷ codes "CLAUDE_CODE_SUBAGENT_MODEL"
    ∷ codes "CLAUDE_CODE_SIMPLE"
    ∷ []

-- CODEX_ROUTING_KEYS
abbrev pub codex_routing_keys : List Text
codex_routing_keys = codes "CODEX_HOME" ∷ codes "OPENAI_API_KEY" ∷ codes "OPENAI_BASE_URL" ∷ []

pub data RoutingError : Type 0 where
  provider_not_found : Text → RoutingError
  materialization_failed : Text → Stage → RoutingError
  type_error : RoutingError

pub data Status : Type 0 where
  default routed default_fallback : Status

pub record Resolution : Type 0 where
  pub env : Fields
  pub skip_default_model : Bool
  pub alias_only : Bool
  pub provider_model : Option Text
  pub provider_models : List Text
  pub provider_name : Option Json
  pub codex_home : Option Text
  pub tools : Option Json
  pub status : Status
  pub fallback : Option RoutingError

unfoldable pub empty_resolution : Resolution
empty_resolution = record {
  env = end;
  skip_default_model = false;
  alias_only = false;
  provider_model = none;
  provider_models = [];
  provider_name = none;
  codex_home = none;
  tools = none;
  status = default;
  fallback = none;
}

-- The error is thrown, or is told in a resolution without credentials.
unfoldable pub fail_or_fall_back :
    Bool → Option Json → RoutingError → Result RoutingError Resolution
fail_or_fall_back false name e = err e
fail_or_fall_back true name e =
    ok (record empty_resolution {
      provider_name = name;
      status = default_fallback;
      fallback = some e;
    })

unfoldable pub app_type_for_cli : Text → Text
app_type_for_cli cli = if text_eq cli (codes "codex") then codes "codex" else codes "claude"

-- The fields that are ANTHROPIC_ texts, written to `env`.
abbrev pub copied : Text → Json → Fields → Fields
copied k (str s) env =
    if starts_with (codes "ANTHROPIC_") k then insert_field k (str s) env else env
copied k v env = env

unfoldable pub anthropic_fields : Fields → Fields → Fields
anthropic_fields end env = env
anthropic_fields (field k v fs) env = anthropic_fields fs (copied k v env)

-- The first alias target that is given becomes the model of a relay that names none.
abbrev pub first_model : List Text → Fields → Option Json
first_model [] env = none
first_model (k ∷ ks) env = if is_given (lookup k env) then lookup k env else first_model ks env

unfoldable pub promote_alias : Fields → Fields
promote_alias env =
    if is_given (lookup (codes "ANTHROPIC_BASE_URL") env)
      && not (is_given (lookup (codes "ANTHROPIC_MODEL") env))
    then elim (first_model alias_model_priority env) [
      | none ↦ env
      | some m ↦ insert_field (codes "ANTHROPIC_MODEL") m env
    ]
    else env

abbrev pub given_text : Option Json → Option Text
given_text v = if is_given v then some (to_text (json_or_null v)) else none

-- The branch of a Claude provider, with the fields of its settings' `env`.
unfoldable pub resolve_claude : Option Json → Fields → Resolution
resolve_claude name src =
    let env = promote_alias (anthropic_fields src end) in
    let is_relay = is_given (lookup (codes "ANTHROPIC_BASE_URL") env) in
    record empty_resolution {
      env = env;
      skip_default_model = is_relay;
      alias_only = is_relay && not (is_given (lookup (codes "ANTHROPIC_MODEL") src));
      provider_model = given_text (lookup (codes "ANTHROPIC_MODEL") env);
      provider_models =
          unique_models
            (lookup (codes "ANTHROPIC_MODEL") env ∷ map (λ k. lookup k env) alias_model_keys);
      provider_name = name;
      tools = or_field (lookup (codes "CPR_TOOLS") src) (lookup (codes "MULTICC_TOOLS") src);
      status = routed;
    }

-- The fields of a provider's settings; null has no property that can be read.
abbrev pub settings_fields : Json → Option Fields
settings_fields null = none
settings_fields cfg = some (own_fields cfg)

module _ (parse : Text → Option Json) (get_provider : Text → Text → Option Fields)
    (home_of : Text → Text) (works : HomeStep → Bool) (global : Bool) where
  -- What the home that was made, or the step that failed, comes to.
  unfoldable pub of_home :
      Text → Bool → Option Json → Result Stage (Unit {0}) → Result RoutingError Resolution
  of_home id allow name (err stage) = fail_or_fall_back allow name (materialization_failed id stage)
  of_home id allow name (ok there) = ok (record empty_resolution {
    env = field (codes "CODEX_HOME") (str (home_of id)) end;
    provider_name = name;
    codex_home = some (home_of id);
    status = routed;
  })

  -- The branch of a Codex provider, with its settings.
  unfoldable pub resolve_codex :
      Text → Bool → Option Json → Option Fields → Home → Home × Result RoutingError Resolution
  resolve_codex id allow name none h =
      (h, of_home id allow name (err (if works make_home then codex_auth else codex_home_stage)))
  resolve_codex id allow name (some cfg) h =
      let (h', done) = materialize works global cfg h in (h', of_home id allow name done)

  -- The branch of a Claude provider.
  unfoldable pub claude_resolution : Option Json → Option Fields → Result RoutingError Resolution
  claude_resolution name none = err type_error
  claude_resolution name (some cfg) =
      ok (resolve_claude name (own_fields (json_or_null (lookup (codes "env") cfg))))

  -- The branches of a provider that was found.
  unfoldable pub resolve_found :
      Text → Text → Bool → Fields → Home → Home × Result RoutingError Resolution
  resolve_found app_type id allow p h =
      let name = lookup (codes "name") p in
      let cfg = settings_fields (parse_config parse (lookup (codes "settingsConfig") p)) in
      if text_eq app_type (codes "claude")
      then (h, claude_resolution name cfg)
      else resolve_codex id allow name cfg h

  unfoldable pub resolve_spawn_env :
      Text → Text → Bool → Home → Home × Result RoutingError Resolution
  resolve_spawn_env cli id allow h =
      let app_type = app_type_for_cli cli in
      if is_empty id then (h, ok empty_resolution) else elim (get_provider app_type id) [
        | some p ↦ resolve_found app_type id allow p h
        | none ↦
            if text_eq app_type (codes "codex")
            then (h, fail_or_fall_back allow none (provider_not_found id))
            else (h, ok empty_resolution)
      ]
