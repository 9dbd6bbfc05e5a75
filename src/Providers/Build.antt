-- ===== src/Providers/Build.antt =====
-- lib/store.js, detectDomesticTarget to buildSettingsConfig: where a Codex provider is reached, and the
-- settings that are made from simple fields. `parse_url` is the URL constructor, `none` where it
-- throws, and `port` is the port of the proxy.
use cli_provider_router.Prelude.{
  ◌-◌, Bool, ◌&&◌, Option, none, some, if◌then◌else◌, List, [], ◌∷◌, ◌++◌, length, drop, Text,
  codes, text_eq, is_empty, lower, starts_with, ◌==◌,
}
use cli_provider_router.Json.{Json, null, str, arr, obj, Items, nil, cons, Fields, end, field}
use cli_provider_router.Durable.{insert_field}
use cli_provider_router.Providers.Config.{parse_model_list, apply_alias_map}

-- What the code asks of a URL; `at_path` prints it with another path and no query or fragment.
pub record Url : Type 0 where
  pub host : Text
  pub pathname : Text
  pub href : Text
  pub at_path : Text → Text

-- A host that is named, or one that begins with a text.
pub data HostTest : Type 0 where
  named begins : Text → HostTest

abbrev pub passes_host : HostTest → Text → Bool
passes_host (named h) host = text_eq host h
passes_host (begins p) host = starts_with p (lower host)

-- DOMESTIC_PROXY_MAP
abbrev pub domestic_proxy_map : List (HostTest × Text)
domestic_proxy_map =
    (named (codes "api.deepseek.com"), codes "https://api.deepseek.com/chat/completions")
    ∷ (
      named (codes "open.bigmodel.cn"),
      codes "https://open.bigmodel.cn/api/paas/v4/chat/completions",
    )
    ∷ (
      named (codes "dashscope.aliyuncs.com"),
      codes "https://dashscope.aliyuncs.com/compatible-mode/v1/chat/completions",
    )
    ∷ (begins (codes "api.minimax"), codes "https://api.minimaxi.com/v1/chat/completions")
    ∷ []

-- RESPONSES_COMPAT_PROXY_MAP
abbrev pub responses_compat_proxy_map : List (HostTest × Text)
responses_compat_proxy_map =
    (
      named (codes "maas-coding-api.cn-huabei-1.xf-yun.com"),
      codes "https://maas-coding-api.cn-huabei-1.xf-yun.com/v1/responses",
    )
    ∷ []

unfoldable pub target_of : List (HostTest × Text) → Text → Option Text
target_of [] host = none
target_of ((test, target) ∷ more) host =
    let rest = target_of more host in if passes_host test host then some target else rest

-- `replace(/\/+$/, '')`
unfoldable pub strip_slashes : Text → Text
strip_slashes [] = []
strip_slashes (c ∷ s) =
    let rest = strip_slashes s in if c == 47 && is_empty rest then [] else c ∷ rest

abbrev pub ends_with : Text → Text → Bool
ends_with p s = text_eq (drop (length s - length p) s) p

abbrev pub chat_path : Text
chat_path = codes "/chat/completions"

unfoldable pub chat_url : Url → Text
chat_url u =
    let p = strip_slashes u.pathname in
    if ends_with chat_path (lower p)
    then u.href
    else u.at_path ((if is_empty p then codes "/v1" else p) ++ chat_path)

-- The catalog `{ models: [{ model }, ...] }`.
abbrev pub model_items : List Text → Items
model_items [] = nil
model_items (m ∷ ms) = cons (obj (field (codes "model") (str m) end)) (model_items ms)

abbrev pub model_catalog : List Text → Json
model_catalog ms = obj (field (codes "models") (arr (model_items ms)) end)

-- The fields that settings are made from; a text that is missing is empty.
pub record Options : Type 0 where
  pub base_url : Text
  pub auth_token : Text
  pub model : Text
  pub models : Option Json
  pub provider_id : Text
  pub use_proxy : Bool
  pub alias_map : Option Json

abbrev pub add_text : Text → Text → Fields → Fields
add_text k t env = if is_empty t then env else insert_field k (str t) env

unfoldable pub claude_settings : Options → Fields
claude_settings o =
    let env = add_text (codes "ANTHROPIC_MODEL") o.model (
      add_text (codes "ANTHROPIC_AUTH_TOKEN") o.auth_token
        (add_text (codes "ANTHROPIC_BASE_URL") o.base_url end)) in
    field (codes "env") (obj (apply_alias_map o.alias_map env)) (
      field (codes "modelCatalog") (model_catalog (parse_model_list o.models (some (str o.model))))
        end)

-- `key = "value"`, where there is a value, and the end of its line.
abbrev pub toml_line : Text → Text → Text
toml_line k v = if is_empty v then [] else k ++ codes " = \"" ++ v ++ codes "\"\n"

unfoldable pub codex_toml : Text → Text → Text
codex_toml model base_url =
    toml_line (codes "model_provider") (codes "custom")
    ++ toml_line (codes "model") model
    ++ codes "[model_providers.custom]\n"
    ++ toml_line (codes "name") (codes "custom")
    ++ toml_line (codes "base_url") base_url
    ++ codes "wire_api = \"responses\"\n"

module _ (parse_url : Text → Option Url) (port : Text) where
  unfoldable pub detect_target : List (HostTest × Text) → Text → Option Text
  detect_target targets base_url =
      if is_empty base_url
      then none
      else elim (parse_url base_url) [ none ↦ none | some u ↦ target_of targets u.host ]

  unfoldable pub chat_completions_target : Text → Option Text
  chat_completions_target base_url =
      if is_empty base_url then none else elim (detect_target domestic_proxy_map base_url) [
        | some t ↦ some t
        | none ↦ elim (parse_url base_url) [ none ↦ none | some u ↦ some (chat_url u) ]
      ]

  -- The target with the mode of the proxy.
  unfoldable pub codex_proxy_target : Text → Option (Text × Text)
  codex_proxy_target base_url = elim (detect_target responses_compat_proxy_map base_url) [
    | some t ↦ some (t, codes "responses-compat")
    | none ↦ elim (chat_completions_target base_url) [
      | none ↦ none
      | some t ↦ some (t, codes "chat-to-responses")
    ]
  ]

  abbrev pub proxy_spec : Options → Option (Text × Text)
  proxy_spec o = if o.use_proxy then codex_proxy_target o.base_url else none

  abbrev pub proxy_base_url : Option (Text × Text) → Options → Text
  proxy_base_url none o = o.base_url
  proxy_base_url (some t) o =
      if is_empty o.provider_id
      then o.base_url
      else codes "http://127.0.0.1:" ++ port ++ codes "/codex-proxy/" ++ o.provider_id

  abbrev pub proxy_fields : Option (Text × Text) → Options → Fields
  proxy_fields none o = end
  proxy_fields (some (target, mode)) o =
      field (codes "proxyTarget")
        (obj (
          field (codes "baseUrl") (str target) (
            field (codes "apiKey") (str o.auth_token) (
              field (codes "originalBaseUrl") (str o.base_url)
                (field (codes "mode") (str mode) end)))))
        end

  unfoldable pub codex_settings : Options → Fields
  codex_settings o =
      let spec = proxy_spec o in
      let key = if is_empty o.auth_token then null else str o.auth_token in
      field (codes "auth") (obj (field (codes "OPENAI_API_KEY") key end)) (
        field (codes "config") (str (codex_toml o.model (proxy_base_url spec o))) (
          field (codes "modelCatalog")
            (model_catalog (parse_model_list o.models (some (str o.model)))) (proxy_fields spec o)))

  unfoldable pub build_settings_config : Text → Options → Fields
  build_settings_config app_type o =
      if text_eq app_type (codes "claude") then claude_settings o else codex_settings o
