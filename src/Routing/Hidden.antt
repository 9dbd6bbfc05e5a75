-- ===== src/Routing/Hidden.antt =====
-- lib/routing.js, applyClaudeProxyEnv: what a child behind the proxy is given.
use cli_provider_router.Prelude.{
  ◌≡◌, ◌++◌, refl, ◌∙◌, inl, inr, true, false, not, ◌&&◌, Bool-cases, Option, none, some,
  if◌then◌else◌, List, [], ◌∷◌, Text, codes, text_eq, text_eq_iff, is_empty, mem_text, arith,
}
use cli_provider_router.Json.{Json, str, Fields, lookup}
use cli_provider_router.Durable.{insert_field}
use cli_provider_router.Settings.Merge.{lookup-insert_field}
use cli_provider_router.Providers.Config.{delete_field}
use cli_provider_router.Spawn.Owned.{lookup-delete_field}
use cli_provider_router.Routing.Proxied.{
  ClaudeOptions, text_or_default, is_proxied, route_token, claude_base_url, with_subagent,
  apply_claude_proxy_env,
}

-- The keys that the proxy takes over.
abbrev pub proxied_keys : List Text
proxied_keys =
    codes "ANTHROPIC_BASE_URL"
    ∷ codes "ANTHROPIC_AUTH_TOKEN"
    ∷ codes "ANTHROPIC_API_KEY"
    ∷ codes "CLAUDE_CODE_SUBAGENT_MODEL"
    ∷ []

module _ (parse : Text → Option Json) (encode : Text → Text) where
  abbrev inner : ClaudeOptions → Fields → Fields
  inner o env = delete_field (codes "ANTHROPIC_API_KEY") (
      insert_field (codes "ANTHROPIC_AUTH_TOKEN") (str (route_token parse encode o))
        (insert_field (codes "ANTHROPIC_BASE_URL") (str (claude_base_url parse encode o)) env))

  subagent_other :
      (k : Text) (o : ClaudeOptions) (env : Fields)
      → text_eq (codes "CLAUDE_CODE_SUBAGENT_MODEL") k ≡ false
      → lookup k (with_subagent parse encode o env) ≡ lookup k env
  subagent_other k o env n =
      elim (Bool-cases (not (is_empty o.subagent_provider) && not (is_empty o.subagent_model))) [
        | inl y ↦
            rw y (lookup-insert_field k (codes "CLAUDE_CODE_SUBAGENT_MODEL") _ env ∙ rw n refl)
        | inr m ↦ rw m (lookup-delete_field k (codes "CLAUDE_CODE_SUBAGENT_MODEL") env ∙ rw n refl)
      ]

  subagent_value :
      (o : ClaudeOptions) (env : Fields)
      → lookup (codes "CLAUDE_CODE_SUBAGENT_MODEL") (with_subagent parse encode o env) ≡ (
          if not (is_empty o.subagent_provider) && not (is_empty o.subagent_model)
          then some (
              str (
                text_or_default o.model_prefix (codes "cpr:")
                ++ o.subagent_provider
                ++ codes ":"
                ++ o.subagent_model))
          else none)
  unfolding text_eq
  subagent_value o env =
      let key = codes "CLAUDE_CODE_SUBAGENT_MODEL" in
      elim (Bool-cases (not (is_empty o.subagent_provider) && not (is_empty o.subagent_model))) [
        | inl y ↦ rw y (lookup-insert_field key key _ env)
        | inr m ↦ rw m (lookup-delete_field key key env)
      ]

  inner_value :
      (k : Text) (o : ClaudeOptions) (env : Fields)
      → lookup k (inner o env) ≡ (
          if text_eq (codes "ANTHROPIC_API_KEY") k
          then none
          else if text_eq (codes "ANTHROPIC_AUTH_TOKEN") k
          then some (str (route_token parse encode o))
          else if text_eq (codes "ANTHROPIC_BASE_URL") k
          then some (str (claude_base_url parse encode o))
          else lookup k env)
  inner_value k o env =
      let token = str (route_token parse encode o) in
      let url = str (claude_base_url parse encode o) in
      let env1 = insert_field (codes "ANTHROPIC_BASE_URL") url env in
      let env2 = insert_field (codes "ANTHROPIC_AUTH_TOKEN") token env1 in
      ground (
        arith,
        lookup-delete_field k (codes "ANTHROPIC_API_KEY") env2,
        lookup-insert_field k (codes "ANTHROPIC_AUTH_TOKEN") token env1,
        lookup-insert_field k (codes "ANTHROPIC_BASE_URL") url env,
      )

  other_value :
      (k : Text) (o : ClaudeOptions) (env : Fields)
      → mem_text k proxied_keys ≡ false
      → lookup k (with_subagent parse encode o (inner o env)) ≡ lookup k env
  unfolding mem_text
  other_value k o env m = ground (
    arith,
    subagent_other k o (inner o env),
    inner_value k o env,
    text_eq_iff k (codes "ANTHROPIC_BASE_URL"),
    text_eq_iff (codes "ANTHROPIC_BASE_URL") k,
    text_eq_iff k (codes "ANTHROPIC_AUTH_TOKEN"),
    text_eq_iff (codes "ANTHROPIC_AUTH_TOKEN") k,
    text_eq_iff k (codes "ANTHROPIC_API_KEY"),
    text_eq_iff (codes "ANTHROPIC_API_KEY") k,
    text_eq_iff k (codes "CLAUDE_CODE_SUBAGENT_MODEL"),
    text_eq_iff (codes "CLAUDE_CODE_SUBAGENT_MODEL") k,
  )

  -- A child that is put behind the proxy gets the proxy's address and the route's token in place of
  -- the provider's own, no API key, and the model of the subagent, under the prefix, where the options
  -- name both its provider and its model and no such variable where they do not; every variable
  -- outside these four is as it was. A child that is not gets its environment unchanged.
  pub apply_claude_proxy_env_lem :
      (o : ClaudeOptions) (provider : Option Fields) (env : Fields)
      → let (after, applied) = apply_claude_proxy_env parse encode o provider env in
        (applied ≡ is_proxied parse encode o provider)
        × (applied ≡ false → after ≡ env)
        × (applied ≡ true
            → (lookup (codes "ANTHROPIC_BASE_URL") after
                ≡ some (str (claude_base_url parse encode o)))
              × (lookup (codes "ANTHROPIC_AUTH_TOKEN") after
                  ≡ some (str (route_token parse encode o)))
              × (lookup (codes "ANTHROPIC_API_KEY") after ≡ none)
              × (lookup (codes "CLAUDE_CODE_SUBAGENT_MODEL") after ≡ (
                  if not (is_empty o.subagent_provider) && not (is_empty o.subagent_model)
                  then some (
                      str (
                        text_or_default o.model_prefix (codes "cpr:")
                        ++ o.subagent_provider
                        ++ codes ":"
                        ++ o.subagent_model))
                  else none))
              × ((k : Text) → mem_text k proxied_keys ≡ false → lookup k after ≡ lookup k env))
  unfolding apply_claude_proxy_env text_eq
  apply_claude_proxy_env_lem o provider env =
      elim (Bool-cases (is_proxied parse encode o provider)) [
        | inr n ↦ rw n (refl, λ e. refl, λ e. ground (arith, e))
        | inl y ↦ rw y (
          refl,
          λ e. ground (arith, e),
          λ e. (
            subagent_other (codes "ANTHROPIC_BASE_URL") o (inner o env) refl
                ∙ inner_value (codes "ANTHROPIC_BASE_URL") o env,
            subagent_other (codes "ANTHROPIC_AUTH_TOKEN") o (inner o env) refl
                ∙ inner_value (codes "ANTHROPIC_AUTH_TOKEN") o env,
            subagent_other (codes "ANTHROPIC_API_KEY") o (inner o env) refl
                ∙ inner_value (codes "ANTHROPIC_API_KEY") o env,
            subagent_value o (inner o env),
            λ k m. other_value k o env m,
          ),
        )
      ]
