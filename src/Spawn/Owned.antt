-- ===== src/Spawn/Owned.antt =====
-- lib/spawn-env.js, buildChildEnv: the router's own environment decides none of the values that route
-- a child.
use cli_provider_router.Prelude.{
  ◌≡◌, refl, ap, ◌∙◌, Bool, Option, none, if◌then◌else◌, List, [], ◌∷◌, Text, text_eq, text_eq_iff,
  mem_text, Result, ok, err, arith,
}
use cli_provider_router.Json.{Json, Fields, end, field, lookup}
use cli_provider_router.Settings.{insert_all}
use cli_provider_router.Settings.Merge.{over, Distinct, lookup-insert_all}
use cli_provider_router.Providers.Config.{delete_field}
use cli_provider_router.Spawn.CodexHome.{HomeStep}
use cli_provider_router.Spawn.Resolve.{RoutingError, Resolution}
use cli_provider_router.Spawn.Child.{delete_fields, scrubbed_keys}

pub lookup-delete_field :
    (j k : Text) (fs : Fields)
    → lookup j (delete_field k fs) ≡ (if text_eq k j then none else lookup j fs)
unfolding lookup delete_field
lookup-delete_field j k end = ground arith
lookup-delete_field j k (field i w fs) =
    ground (arith, lookup-delete_field j k fs, text_eq_iff i k, text_eq_iff i j, text_eq_iff k j)

pub lookup-delete_fields :
    (j : Text) (ks : List Text) (fs : Fields)
    → lookup j (delete_fields ks fs) ≡ (if mem_text j ks then none else lookup j fs)
unfolding delete_fields mem_text
lookup-delete_fields j [] fs = refl
lookup-delete_fields j (k ∷ ks) fs = ground (
  arith,
  lookup-delete_fields j ks (delete_field k fs),
  lookup-delete_field j k fs,
  text_eq_iff k j,
  text_eq_iff j k,
)

-- The environment of a resolution names nothing twice.
abbrev IsPlain : Result RoutingError Resolution → Type 0
IsPlain (err e) = Unit
IsPlain (ok r) = Distinct r.env

module _ (parse : Text → Option Json) (get_provider : Text → Text → Option Fields)
    (home_of : Text → Text) (works : HomeStep → Bool) (global : Bool) where
  -- What a child inherits: nothing under a key that is scrubbed.
  pub inherited :
      (cli k : Text) (base extra : Fields)
      → Distinct extra
      → lookup k (delete_fields (scrubbed_keys cli) (insert_all base extra))
        ≡ (if mem_text k (scrubbed_keys cli) then none else over (lookup k extra) (lookup k base))
  inherited cli k base extra d =
      lookup-delete_fields k (scrubbed_keys cli) (insert_all base extra)
      ∙ ap (λ x. if mem_text k (scrubbed_keys cli) then none else x)
          (lookup-insert_all k base extra d)
