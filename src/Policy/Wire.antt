-- ===== src/Policy/Wire.antt =====
-- lib/model-policy.js, resolveWireModel: the model that is passed to a command line tool.
use cli_provider_router.Prelude.{
  Bool, not, ◌&&◌, ◌||◌, Option, none, some, if◌then◌else◌, List, [], ◌∷◌, keep, Text, is_empty,
  mem_text,
}
use cli_provider_router.Json.{Json, arr, Items, nil, cons}
use cli_provider_router.Hop.Routes.{is_given}
use cli_provider_router.Ledger.Event.{is_nullish}
use cli_provider_router.Policy.Models.{strip_model_suffix, is_tier}

-- The options; `none` is undefined.
pub record Options : Type 0 where
  pub provider_model : Option Json
  pub model : Option Json
  pub provider_models : Option Json
  pub model_options : Option Json
  pub skip_default_model : Bool
  pub default_model : Option Json

abbrev pub or_undefined : Option Json → Option Json → Option Json
or_undefined none b = b
or_undefined (some v) b = some v

abbrev pub stripped : Items → List Text
stripped nil = []
stripped (cons v vs) = strip_model_suffix (some v) ∷ stripped vs

abbrev pub served_by : Option Json → List Text
served_by (some (arr vs)) = keep (λ t. not (is_empty t)) (stripped vs)
served_by v = []

abbrev pub requested_model : Option Json → Text
requested_model session = if is_given session then strip_model_suffix session else []

-- Whether the session's own model is sent to a provider.
unfoldable pub is_honored : Text → Options → Bool
is_honored requested o =
    not (is_empty requested)
    && (is_tier requested
        || mem_text requested (served_by (or_undefined o.provider_models o.model_options)))

unfoldable pub resolve_wire_model : Option Json → Options → Option Text
resolve_wire_model session o =
    let requested = requested_model session in
    let provider_model = or_undefined o.provider_model o.model in
    if is_nullish provider_model
    then if not (is_empty requested)
      then some requested
      else if o.skip_default_model
      then none
      else if is_given o.default_model
      then some (strip_model_suffix o.default_model)
      else none
    else if is_honored requested o
    then some requested
    else some (strip_model_suffix provider_model)
