-- ===== src/Routing/Proxied.antt =====
-- lib/routing.js: the environment of a Claude child behind the proxy, the auth.json of a Codex home, and
-- whether the proxy can stand before a Codex provider. `parse` is JSON.parse, `encode` is
-- encodeURIComponent.
use cli_provider_router.Prelude.{
  Bool, true, false, not, ◌&&◌, ◌||◌, Option, none, some, ◌==◌, if◌then◌else◌, [], ◌∷◌, ◌++◌, Text,
  codes, text_eq, is_empty,
}
use cli_provider_router.Json.{Json, str, Fields, lookup}
use cli_provider_router.Durable.{insert_field}
use cli_provider_router.Hop.Routes.{is_given}
use cli_provider_router.Ledger.Event.{json_or_null}
use cli_provider_router.Providers.Config.{parse_config, delete_field}
use cli_provider_router.Providers.Build.{strip_slashes}
use cli_provider_router.Providers.Summary.{prop, config_value}
use cli_provider_router.Spawn.CodexHome.{Auth, own, of_user}

-- materializeCodexAuth, where every call of the file system succeeds: what auth.json then is.
-- `global` tells whether the user's own file is there.
unfoldable pub materialize_codex_auth : Bool → Fields → Option Auth × Text
materialize_codex_auth global cfg =
    let auth = lookup (codes "auth") cfg in
    if is_empty (config_value cfg (codes "base_url"))
    then (if global
        then (some of_user, codes "global")
        else if is_given auth
        then (some (own (json_or_null auth)), codes "provider-fallback")
        else (none, codes "none"))
    else if is_given auth
    then (some (own (json_or_null auth)), codes "provider")
    else (none, codes "none")

-- The options of applyClaudeProxyEnv; a text that is missing is empty.
pub record ClaudeOptions : Type 0 where
  pub enabled : Bool
  pub provider_id : Text
  pub session_id : Text
  pub port : Text
  pub proxy_base_url : Text
  pub proxy_path : Text
  pub official_provider_id : Text
  pub official_oauth : Bool
  pub route_token : Text
  pub managed_token : Text
  pub token_prefix : Text
  pub model_prefix : Text
  pub subagent_provider : Text
  pub subagent_model : Text

abbrev pub text_or_default : Text → Text → Text
text_or_default t d = if is_empty t then d else t

-- `replace(/^\/+|\/+$/g, '')`
unfoldable pub skip_slashes : Text → Text
skip_slashes [] = []
skip_slashes (c ∷ s) = let rest = skip_slashes s in if c == 47 then rest else c ∷ s

abbrev pub trim_slashes : Text → Text
trim_slashes t = strip_slashes (skip_slashes t)

unfoldable pub origin_of : Text → Text → Text
origin_of proxy_base_url port =
    strip_slashes (text_or_default proxy_base_url (codes "http://127.0.0.1:" ++ port))

module _ (parse : Text → Option Json) (encode : Text → Text) where
  -- localProxyBase, where the path's option is empty if it is missing.
  unfoldable pub local_proxy_base : Text → Text → Text → Text → Text → Text → Text
  local_proxy_base proxy_base_url port path provider_id session_id role =
      origin_of proxy_base_url port
      ++ codes "/"
      ++ trim_slashes (text_or_default path (codes "/codex-proxy"))
      ++ codes "/"
      ++ encode provider_id
      ++ codes "/"
      ++ encode session_id
      ++ codes "/"
      ++ role

  -- Whether the provider's environment has a base URL; settings that are null are outside the model.
  abbrev pub has_base : Option Fields → Bool
  has_base none = false
  has_base (some p) = is_given (
      prop (codes "ANTHROPIC_BASE_URL")
        (prop (codes "env") (some (parse_config parse (lookup (codes "settingsConfig") p)))))

  -- Whether the child is put behind the proxy.
  unfoldable pub is_proxied : ClaudeOptions → Option Fields → Bool
  is_proxied o provider =
      o.enabled
      && not (is_empty o.provider_id)
      && not (is_empty o.session_id)
      && (not (is_empty o.port) || not (is_empty o.proxy_base_url))
      && (has_base provider
          || (o.official_oauth
              && text_eq o.provider_id
                  (text_or_default o.official_provider_id (codes "claude-official"))))

  abbrev pub route_token : ClaudeOptions → Text
  route_token o = text_or_default o.route_token (
      text_or_default o.managed_token
        (text_or_default o.token_prefix (codes "cpr-") ++ o.session_id))

  abbrev pub claude_base_url : ClaudeOptions → Text
  claude_base_url o =
      origin_of o.proxy_base_url o.port
      ++ codes "/"
      ++ trim_slashes (text_or_default o.proxy_path (codes "/claude-proxy"))
      ++ codes "/"
      ++ encode o.provider_id
      ++ codes "/"
      ++ encode o.session_id

  abbrev pub with_subagent : ClaudeOptions → Fields → Fields
  with_subagent o env =
      if not (is_empty o.subagent_provider) && not (is_empty o.subagent_model)
      then insert_field (codes "CLAUDE_CODE_SUBAGENT_MODEL")
          (str (
            text_or_default o.model_prefix (codes "cpr:")
            ++ o.subagent_provider
            ++ codes ":"
            ++ o.subagent_model))
          env
      else delete_field (codes "CLAUDE_CODE_SUBAGENT_MODEL") env

  -- `provider` is what getProvider('claude', providerId) gives, if there is a resolver.
  unfoldable pub apply_claude_proxy_env : ClaudeOptions → Option Fields → Fields → Fields × Bool
  apply_claude_proxy_env o provider env = if not (is_proxied o provider) then (env, false) else (
    with_subagent o (
        delete_field (codes "ANTHROPIC_API_KEY") (
          insert_field (codes "ANTHROPIC_AUTH_TOKEN") (str (route_token o))
            (insert_field (codes "ANTHROPIC_BASE_URL") (str (claude_base_url o)) env))),
    true,
  )
