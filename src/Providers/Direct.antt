-- ===== src/Providers/Direct.antt =====
-- lib/store.js, resolveCodexDirectHttp: where the requests of a Codex provider can be sent without its
-- command line tool.
use cli_provider_router.Prelude.{
  Bool, false, not, ◌||◌, Option, none, some, or_else, if◌then◌else◌, List, [], ◌∷◌, ◌++◌, Text,
  codes, is_empty, starts_with, Result, ok, err,
}
use cli_provider_router.Json.{Json, null, str, Fields, lookup, truthy, or_blank}
use cli_provider_router.Hop.Routes.{is_given, or_field}
use cli_provider_router.Ledger.Event.{json_or_null}
use cli_provider_router.Settings.{own_fields}
use cli_provider_router.Providers.Config.{parse_config}
use cli_provider_router.Providers.Build.{chat_path, strip_slashes, ends_with}
use cli_provider_router.Providers.Summary.{prop, config_value, catalog_of}

-- Why a provider cannot be reached directly.
pub data Reason : Type 0 where
  not_found no_proxy_key no_key no_base_url local_proxy type_error : Reason

pub record Direct : Type 0 where
  pub url : Json
  pub api_key : Json
  pub model : Text
  pub model_options : List Json

-- `/127\.0\.0\.1|localhost/.test(text)`
unfoldable pub is_local : Text → Bool
is_local [] = false
is_local (c ∷ s) =
    let rest = is_local s in
    starts_with (codes "127.0.0.1") (c ∷ s) || starts_with (codes "localhost") (c ∷ s) || rest

unfoldable pub direct_url : Text → Text
direct_url base =
    let url = strip_slashes base in if ends_with chat_path url then url else url ++ chat_path

abbrev pub options_of : Fields → Text → List Json
options_of cfg model = or_else (catalog_of cfg) (if is_empty model then [] else str model ∷ [])

unfoldable pub direct_of : Fields → Result Reason Direct
direct_of cfg =
    let key = or_blank (prop (codes "OPENAI_API_KEY") (lookup (codes "auth") cfg)) in
    let model = config_value cfg (codes "model") in
    let options = options_of cfg model in
    let proxy = lookup (codes "proxyTarget") cfg in
    let target = prop (codes "baseUrl") proxy in
    let proxy_key = or_field (prop (codes "apiKey") proxy) (some key) in
    let base = config_value cfg (codes "base_url") in
    if is_given target
    then (if is_given proxy_key
        then ok (record {
          url = json_or_null target;
          api_key = json_or_null proxy_key;
          model = model;
          model_options = options;
        })
        else err no_proxy_key)
    else if not (truthy key)
    then err no_key
    else if is_empty base
    then err no_base_url
    else if is_local base
    then err local_proxy
    else ok (record {
      url = str (direct_url base);
      api_key = key;
      model = model;
      model_options = options;
    })

-- `provider` is what getProvider('codex', id) gives.
unfoldable pub resolve_codex_direct_http : (Text → Option Json) → Option Json → Result Reason Direct
resolve_codex_direct_http parse none = err not_found
resolve_codex_direct_http parse (some provider) =
    elim (parse_config parse (prop (codes "settingsConfig") (some provider))) [
      | null ↦ err type_error
      | cfg ↦ direct_of (own_fields cfg)
    ]
