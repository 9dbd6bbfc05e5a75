-- ===== src/Policy/Valid.antt =====
-- lib/model-policy.js, providerPolicy and modelValidForProvider: whether a provider can be asked for a
-- model. `parse` is JSON.parse and `parse_toml` is TOML.parse, `none` where they throw.
use cli_provider_router.Prelude.{
  Bool, true, not, ◌&&◌, ◌||◌, Option, none, some, ◌==◌, if◌then◌else◌, List, [], length, keep, map,
  Text, codes, text_eq, is_empty, mem_text, trim, lower, starts_with,
}
use cli_provider_router.Json.{Json, null, str, arr, obj, Fields, end, lookup, to_text, or_blank}
use cli_provider_router.Ledger.Event.{is_nullish}
use cli_provider_router.Settings.{own_fields}
use cli_provider_router.Providers.Config.{parse_config}
use cli_provider_router.Policy.Models.{
  strip_model_suffix, strip_text, is_tier, Policy, mapped_model, claude_policy, codex_policy,
  other_policy,
}

-- A provider is an object or missing.
abbrev pub provider_fields : Option Json → Option Fields
provider_fields (some (obj fs)) = some fs
provider_fields (some (arr vs)) = some (own_fields (arr vs))
provider_fields v = none

pub record Arguments : Type 0 where
  pub app_type : Text
  pub provider : Option Json
  pub model : Option Json

abbrev pub type_of : Option Json → Text
type_of provider = elim (provider_fields provider) [
  | none ↦ []
  | some p ↦ lower (to_text (or_blank (lookup (codes "appType") p)))
]

-- The three arguments, or the two of a provider that carries its type; `passed` tells whether there
-- are three.
unfoldable pub validation_arguments : Option Json → Option Json → Bool → Option Json → Arguments
validation_arguments first second passed third =
    let kind = lower (to_text (or_blank first)) in
    if (text_eq kind (codes "claude") || text_eq kind (codes "codex")) && passed
    then record { app_type = kind; provider = second; model = third }
    else record { app_type = type_of second; provider = second; model = first }

module _ (parse : Text → Option Json) (parse_toml : Text → Option Json) where
  -- `none` is the TypeError of settings that are null.
  unfoldable pub policy_of : Text → Fields → Option Policy
  policy_of kind p = elim (parse_config parse (lookup (codes "settingsConfig") p)) [
    | null ↦
        if text_eq kind (codes "claude") || text_eq kind (codes "codex")
        then none
        else some (other_policy kind p end)
    | cfg ↦
        if text_eq kind (codes "claude")
        then some (claude_policy p (own_fields cfg))
        else if text_eq kind (codes "codex")
        then some (
            codex_policy p (own_fields cfg)
              (elim (parse_toml (to_text (or_blank (lookup (codes "config") (own_fields cfg))))) [
                | none ↦ end
                | some v ↦ own_fields v
              ]))
        else some (other_policy kind p (own_fields cfg))
  ]

  unfoldable pub provider_policy : Text → Fields → Option Policy
  provider_policy app_type p =
      policy_of
        (lower
          (if is_empty app_type then to_text (or_blank (lookup (codes "appType") p)) else app_type))
        p

  abbrev pub served_options : Policy → List Text
  served_options policy = keep (λ t. not (is_empty t)) (map strip_text policy.model_options)

  -- A tier is served where it is mapped, and any other model where it is listed or none is.
  unfoldable pub is_served : Policy → Text → Bool
  is_served policy bare =
      if is_tier bare
      then text_eq (lower bare) (codes "default")
        || not (
            is_empty
              (trim (to_text (or_blank (mapped_model (lookup (lower bare) policy.alias_map))))))
      else length (served_options policy) == 0 || mem_text bare (served_options policy)

  -- The login of Anthropic knows the tiers and its own models.
  abbrev pub is_anthropic : Text → Bool
  is_anthropic bare = is_tier bare || starts_with (codes "claude-") (lower bare)

  abbrev pub is_missing : Option Json → Bool
  is_missing (some (str [])) = true
  is_missing v = is_nullish v

  abbrev pub valid_with : Text → Text → Policy → Bool
  valid_with kind bare policy =
      if text_eq kind (codes "claude") && policy.is_official
      then is_anthropic bare
      else is_served policy bare

  unfoldable pub is_valid : Arguments → Option Bool
  is_valid a =
      let bare = strip_model_suffix a.model in
      if is_missing a.model then some true else elim (provider_fields a.provider) [
        | none ↦ some (if text_eq a.app_type (codes "claude") then is_anthropic bare else true)
        | some p ↦ elim (provider_policy a.app_type p) [
          | none ↦ none
          | some policy ↦
              some (
                valid_with (if is_empty a.app_type then policy.app_type else a.app_type) bare
                  policy)
        ]
      ]

  unfoldable pub model_valid_for_provider :
      Option Json → Option Json → Bool → Option Json → Option Bool
  model_valid_for_provider first second passed third =
      is_valid (validation_arguments first second passed third)
