-- ===== src/Examples/Proxied.antt =====
-- lib/routing.js, applyClaudeProxyEnv at one provider with an address and a token of its own.
use cli_provider_router.Prelude.{◌≡◌, true, false, Option, none, some, [], Text, codes, mem_text}
use cli_provider_router.Json.{Json, str, obj, Fields, end, field, lookup}
use cli_provider_router.Routing.Proxied.{
  ClaudeOptions, is_proxied, route_token, claude_base_url, apply_claude_proxy_env,
}
use cli_provider_router.Routing.Hidden.{proxied_keys, apply_claude_proxy_env_lem}

abbrev not_json : Text → Option Json
not_json t = none

abbrev as_is : Text → Text
as_is t = t

abbrev own_env : Fields
own_env =
    field (codes "ANTHROPIC_BASE_URL") (str (codes "https://relay"))
      (field (codes "ANTHROPIC_AUTH_TOKEN") (str (codes "secret")) end)

abbrev relay : Fields
relay = field (codes "settingsConfig") (obj (field (codes "env") (obj own_env) end)) end

abbrev session_options : ClaudeOptions
session_options = record {
  enabled = true;
  provider_id = codes "p1";
  session_id = codes "s1";
  port = codes "3200";
  proxy_base_url = [];
  proxy_path = [];
  official_provider_id = [];
  official_oauth = false;
  route_token = [];
  managed_token = [];
  token_prefix = [];
  model_prefix = [];
  subagent_provider = codes "p2";
  subagent_model = codes "m2";
}

apply_claude_proxy_env_lem_example :
    let (after, applied) =
      apply_claude_proxy_env not_json as_is session_options (some relay) own_env in
    (applied ≡ is_proxied not_json as_is session_options (some relay))
    × (applied ≡ false → after ≡ own_env)
    × (applied ≡ true
        → (lookup (codes "ANTHROPIC_BASE_URL") after
            ≡ some (str (claude_base_url not_json as_is session_options)))
          × (lookup (codes "ANTHROPIC_AUTH_TOKEN") after
              ≡ some (str (route_token not_json as_is session_options)))
          × (lookup (codes "ANTHROPIC_API_KEY") after ≡ none)
          × (lookup (codes "CLAUDE_CODE_SUBAGENT_MODEL") after ≡ some (str (codes "cpr:p2:m2")))
          × ((k : Text) → mem_text k proxied_keys ≡ false → lookup k after ≡ lookup k own_env))
apply_claude_proxy_env_lem_example =
    apply_claude_proxy_env_lem not_json as_is session_options (some relay) own_env
