-- ===== src/Spawn/Closed.antt =====
-- lib/spawn-env.js, resolveSpawnEnv and buildChildEnv for Codex: a chosen provider is used, or the
-- failure is told.
use cli_provider_router.Prelude.{
  ◌≡◌, refl, sym, ap, ◌∙◌, subst, ◌⊎◌, inl, inr, Bool, true, false, Option, none, some,
  Option-cases, if◌then◌else◌, Text, codes, text_eq, is_empty, mem_text, Result, ok, err,
  Result-cases, arith,
}
use cli_provider_router.Json.{Json, str, Fields, end, field, lookup}
use cli_provider_router.Settings.{insert_all}
use cli_provider_router.Settings.Merge.{over, Distinct, lookup-insert_all}
use cli_provider_router.Spawn.CodexHome.{HomeStep, Home, Stage}
use cli_provider_router.Spawn.Resolve.{
  codex_routing_keys, RoutingError, provider_not_found, materialization_failed, routed,
  default_fallback, Resolution, empty_resolution, fail_or_fall_back, app_type_for_cli, of_home,
  resolve_codex, resolve_found, resolve_spawn_env,
}
use cli_provider_router.Spawn.Child.{delete_fields, scrubbed_keys, build_child_env}
use cli_provider_router.Spawn.Owned.{lookup-delete_fields}

over-none : (o : Option Json) → over o none ≡ o
over-none none = refl
over-none (some v) = refl

-- Under a key of Codex stands what was added.
codex_value :
    (k : Text) (start more : Fields)
    → mem_text k codex_routing_keys ≡ true
    → Distinct more
    → lookup k (insert_all (delete_fields codex_routing_keys start) more) ≡ lookup k more
codex_value k start more m d =
    lookup-insert_all k (delete_fields codex_routing_keys start) more d
    ∙ ap (over (lookup k more)) (
        lookup-delete_fields k codex_routing_keys start
        ∙ ap (λ b. if b then none else lookup k start) m)
    ∙ over-none (lookup k more)

module _ (parse : Text → Option Json) (get_provider : Text → Text → Option Fields)
    (home_of : Text → Text) (works : HomeStep → Bool) (global : Bool) where
  -- A resolution routes to the provider's home, or is one that was allowed to fall back.
  abbrev IsRouted : Text → Bool → Resolution → Type 0
  IsRouted id allow q =
      ((q.env ≡ field (codes "CODEX_HOME") (str (home_of id)) end) × (q.status ≡ routed))
      ⊎ ((q.env ≡ end) × (q.status ≡ default_fallback) × (allow ≡ true))

  abbrev IsClosed : Text → Bool → Result RoutingError Resolution → Type 0
  IsClosed id allow (err e) = Unit
  IsClosed id allow (ok q) = IsRouted id allow q

  fail-IsClosed :
      (id : Text) (allow : Bool) (name : Option Json) (e : RoutingError)
      → IsClosed id allow (fail_or_fall_back allow name e)
  unfolding fail_or_fall_back empty_resolution
  fail-IsClosed id true name e = inr (refl, refl, refl)
  fail-IsClosed id false name e = tt

  home-IsClosed :
      (id : Text) (allow : Bool) (name : Option Json) (done : Result Stage (Unit {0}))
      → IsClosed id allow (of_home parse get_provider home_of works global id allow name done)
  unfolding of_home empty_resolution
  home-IsClosed id allow name (ok u) = inl (refl, refl)
  home-IsClosed id allow name (err x) = fail-IsClosed id allow name (materialization_failed id x)

  codex-IsClosed :
      (id : Text) (allow : Bool) (name : Option Json) (cfg : Option Fields) (h : Home)
      → IsClosed id allow
          (resolve_codex parse get_provider home_of works global id allow name cfg h).1
  unfolding resolve_codex
  codex-IsClosed id allow name none h = home-IsClosed id allow name _
  codex-IsClosed id allow name (some cfg) h = home-IsClosed id allow name _

  resolve-IsClosed :
      (id : Text) (allow : Bool) (h : Home)
      → is_empty id ≡ false
      → IsClosed id allow
          (resolve_spawn_env parse get_provider home_of works global (codes "codex") id allow h).1
  unfolding resolve_spawn_env resolve_found app_type_for_cli text_eq
  resolve-IsClosed id allow h n = elim (Option-cases (get_provider (codes "codex") id)) [
    | inr (p, e) ↦ rw (n, e) (codex-IsClosed id allow (lookup (codes "name") p) _ h)
    | inl m ↦ rw (n, m) (fail-IsClosed id allow none (provider_not_found id))
  ]

  -- What the values that route a Codex child are.
  abbrev pub IsCodexEnv : Text → Bool → Resolution → Type 0
  IsCodexEnv id allow r =
      ((lookup (codes "CODEX_HOME") r.env ≡ some (str (home_of id)))
        × (lookup (codes "OPENAI_API_KEY") r.env ≡ none)
        × (lookup (codes "OPENAI_BASE_URL") r.env ≡ none)
        × (r.status ≡ routed))
      ⊎ (((k : Text) → mem_text k codex_routing_keys ≡ true → lookup k r.env ≡ none)
          × (r.status ≡ default_fallback)
          × (allow ≡ true))

  routed-IsCodexEnv :
      (start : Fields) (id : Text) (allow : Bool) (q : Resolution)
      → IsRouted id allow q
      → IsCodexEnv id allow
          (record q { env = insert_all (delete_fields codex_routing_keys start) q.env })
  unfolding text_eq mem_text lookup
  routed-IsCodexEnv start id allow q (inl (e, s)) =
      let value : (k : Text)
          → mem_text k codex_routing_keys ≡ true
          → lookup k (insert_all (delete_fields codex_routing_keys start) q.env)
            ≡ lookup k (field (codes "CODEX_HOME") (str (home_of id)) end) =
        λ k m.
          ap (λ x. lookup k (insert_all (delete_fields codex_routing_keys start) x)) e
          ∙ codex_value k start (field (codes "CODEX_HOME") (str (home_of id)) end) m (refl, tt) in
      inl (
        value (codes "CODEX_HOME") refl,
        value (codes "OPENAI_API_KEY") refl,
        value (codes "OPENAI_BASE_URL") refl,
        s,
      )
  routed-IsCodexEnv start id allow q (inr (e, s, a)) = inr (
    (λ k m.
        ap (λ x. lookup k (insert_all (delete_fields codex_routing_keys start) x)) e
        ∙ codex_value k start end m tt),
    s,
    a,
  )

  scrubbed_codex : scrubbed_keys (codes "codex") ≡ codex_routing_keys
  unfolding scrubbed_keys text_eq
  scrubbed_codex = refl

  -- A Codex child that is built for a provider that was chosen has the home of that provider and no
  -- key or address of an OpenAI account, or else, only where falling back was allowed, says that it
  -- fell back and has none of the three, whatever the router's environment and the extra variables
  -- hold.
  pub codex_fails_closed :
      (base extra : Fields) (id : Text) (allow : Bool) (h : Home) (r : Resolution)
      → is_empty id ≡ false
      → (build_child_env parse get_provider home_of works global base extra
          (codes "codex")
          id
          allow
          h).1
        ≡ ok r
      → IsCodexEnv id allow r
  unfolding build_child_env
  codex_fails_closed base extra id allow h r n e =
      elim (Result-cases
        (resolve_spawn_env parse get_provider home_of works global (codes "codex") id allow h).1) [
          | inr (x, f) ↦ absurd (ground (arith, e, f))
          | inl (q, f) ↦
              let routes : IsRouted id allow q =
                subst (IsClosed id allow) f (resolve-IsClosed id allow h n) in
              let same : record q {
                env =
                    insert_all
                      (delete_fields (scrubbed_keys (codes "codex")) (insert_all base extra)) q.env;
              }
                  ≡ r =
                ground (arith, e, f) in
              subst (IsCodexEnv id allow) same (
                subst
                  (λ ks. IsCodexEnv id allow (record q {
                    env = insert_all (delete_fields ks (insert_all base extra)) q.env;
                  }))
                  (sym scrubbed_codex)
                  (routed-IsCodexEnv (insert_all base extra) id allow q routes))
        ]
