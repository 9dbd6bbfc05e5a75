-- ===== src/Spawn/Child.antt =====
-- lib/spawn-env.js, buildChildEnv: the environment of a child, and which of its values can come from
-- the router's own environment.
use cli_provider_router.Prelude.{
  Bool, Option, if◌then◌else◌, List, [], ◌∷◌, Text, codes, text_eq, Result, ok, err,
}
use cli_provider_router.Json.{Json, Fields}
use cli_provider_router.Settings.{insert_all}
use cli_provider_router.Providers.Config.{delete_field}
use cli_provider_router.Spawn.CodexHome.{HomeStep, Home}
use cli_provider_router.Spawn.Resolve.{
  claude_routing_keys, codex_routing_keys, RoutingError, Resolution, resolve_spawn_env,
}

-- `for (const k of keys) delete env[k]`
unfoldable pub delete_fields : List Text → Fields → Fields
delete_fields [] env = env
delete_fields (k ∷ ks) env = delete_fields ks (delete_field k env)

-- The keys that are taken out of what a tool inherits.
unfoldable pub scrubbed_keys : Text → List Text
scrubbed_keys cli =
    if text_eq cli (codes "claude")
    then claude_routing_keys
    else if text_eq cli (codes "codex")
    then codex_routing_keys
    else []

module _ (parse : Text → Option Json) (get_provider : Text → Text → Option Fields)
    (home_of : Text → Text) (works : HomeStep → Bool) (global : Bool) where
  -- The resolution with the environment of the child in place of its own.
  abbrev pub in_env : Fields → Result RoutingError Resolution → Result RoutingError Resolution
  in_env env (err e) = err e
  in_env env (ok r) = ok (record r { env = insert_all env r.env })

  unfoldable pub build_child_env :
      Fields → Fields → Text → Text → Bool → Home → Home × Result RoutingError Resolution
  build_child_env base extra cli id allow h =
      let (h', spawn) = resolve_spawn_env parse get_provider home_of works global cli id allow h in
      (h', in_env (delete_fields (scrubbed_keys cli) (insert_all base extra)) spawn)
