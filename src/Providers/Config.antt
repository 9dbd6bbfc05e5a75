-- ===== src/Providers/Config.antt =====
-- lib/store.js, the pure helpers on a provider's settings: parseConfig, maskToken, tomlValue,
-- uniqueModels, parseModelList and applyAliasMapToEnv. An environment is the fields of an object.
use cli_provider_router.Prelude.{
  ◌-◌, not, ◌&&◌, ◌||◌, Option, none, some, leb, ◌==◌, if◌then◌else◌, List, [], ◌∷◌, ◌++◌, length,
  drop, take, map, Text, codes, text_eq, is_empty, mem_text, is_space, trim, starts_with,
}
use cli_provider_router.Json.{
  Json, str, arr, obj, Items, nil, cons, Fields, end, field, lookup, to_text, or_blank,
}
use cli_provider_router.Durable.{insert_field}
use cli_provider_router.Ledger.Rollup.{reversed}

-- parseConfig. `parse` is JSON.parse, `none` where it throws; a value that is missing prints as text
-- that does not parse.
unfoldable pub parse_config : (Text → Option Json) → Option Json → Json
parse_config parse none = obj end
parse_config parse (some (obj fs)) = obj fs
parse_config parse (some (arr vs)) = arr vs
parse_config parse (some v) = elim (parse (to_text v)) [ none ↦ obj end | some w ↦ w ]

unfoldable pub mask_token : Option Json → Text
mask_token (some (str [])) = []
mask_token (some (str t)) =
    if leb (length t) 10 then codes "***" else take 6 t ++ (8230 ∷ drop (length t - 4) t)
mask_token v = []

-- `([^"]+)"` at the start of a text, the value in reverse.
unfoldable pub quoted : Text → Text → Option Text
quoted acc [] = none
quoted acc (c ∷ s) =
    let rest = quoted (c ∷ acc) s in
    if c == 34 then (if is_empty acc then none else some (reversed acc [])) else rest

abbrev pub skip_spaces : Text → Text
skip_spaces [] = []
skip_spaces (c ∷ s) = let rest = skip_spaces s in if is_space c then rest else c ∷ s

-- The text behind a prefix.
abbrev pub after_prefix : Text → Text → Option Text
after_prefix p s = if starts_with p s then some (drop (length p) s) else none

-- `key\s*=\s*"([^"]+)"` behind the white space at the start of a text.
unfoldable pub value_here : Text → Text → Option Text
value_here key s = elim (after_prefix key (skip_spaces s)) [
  | none ↦ none
  | some rest ↦ elim (after_prefix (codes "=") (skip_spaces rest)) [
    | none ↦ none
    | some value ↦ elim (after_prefix (34 ∷ []) (skip_spaces value)) [
      | none ↦ none
      | some body ↦ quoted [] body
    ]
  ]
]

-- The first match behind a line break.
unfoldable pub value_later : Text → Text → Option Text
value_later key [] = none
value_later key (c ∷ s) =
    let rest = value_later key s in
    if c == 10 then elim (value_here key s) [ none ↦ rest | some v ↦ some v ] else rest

-- tomlValue, for a key without white space.
unfoldable pub toml_value : Text → Text → Text
toml_value toml key = elim (value_here key toml) [
  | some v ↦ v
  | none ↦ elim (value_later key toml) [ none ↦ [] | some v ↦ v ]
]

-- `String(raw || '').trim()`, once each, blanks left out; `seen` is what has come before.
unfoldable pub unique_from : List Text → List (Option Json) → List Text
unique_from seen [] = []
unique_from seen (raw ∷ values) =
    let v = trim (to_text (or_blank raw)) in
    let skipped = unique_from seen values in
    let kept = unique_from (v ∷ seen) values in
    if not (is_empty v) && not (mem_text v seen) then v ∷ kept else skipped

unfoldable pub unique_models : List (Option Json) → List Text
unique_models values = unique_from [] values

-- `text.split(/[\n,]/)`, the current part in reverse.
unfoldable pub split_models : Text → Text → List Text
split_models [] part = reversed part [] ∷ []
split_models (c ∷ s) part =
    let cut = split_models s [] in
    let longer = split_models s (c ∷ part) in
    if c == 44 || c == 10 then reversed part [] ∷ cut else longer

abbrev pub some_items : Items → List (Option Json)
some_items nil = []
some_items (cons v vs) = some v ∷ some_items vs

unfoldable pub parse_model_list : Option Json → Option Json → List Text
parse_model_list (some (arr vs)) primary = unique_models (primary ∷ some_items vs)
parse_model_list models primary =
    unique_models (primary ∷ map (λ t. some (str t)) (split_models (to_text (or_blank models)) []))

-- ALIAS_TIER_KEYS
abbrev pub alias_tier_keys : List (Text × Text)
alias_tier_keys =
    (codes "opus", codes "ANTHROPIC_DEFAULT_OPUS_MODEL")
    ∷ (codes "sonnet", codes "ANTHROPIC_DEFAULT_SONNET_MODEL")
    ∷ (codes "haiku", codes "ANTHROPIC_DEFAULT_HAIKU_MODEL")
    ∷ (codes "fable", codes "ANTHROPIC_DEFAULT_FABLE_MODEL")
    ∷ []

-- `delete env[key]`
unfoldable pub delete_field : Text → Fields → Fields
delete_field k end = end
delete_field k (field j v fs) =
    let rest = delete_field k fs in if text_eq j k then rest else field j v rest

-- The model and the name of an entry of the alias map, trimmed.
abbrev pub alias_model : Option Json → Text
alias_model (some (obj fs)) = trim (to_text (or_blank (lookup (codes "model") fs)))
alias_model (some (arr vs)) = []
alias_model entry = trim (to_text (or_blank entry))

abbrev pub alias_name : Option Json → Text
alias_name (some (obj fs)) = trim (to_text (or_blank (lookup (codes "name") fs)))
alias_name entry = []

unfoldable pub apply_alias : Option Json → Text → Fields → Fields
apply_alias entry key env =
    if is_empty (alias_model entry)
    then delete_field (key ++ codes "_NAME") (delete_field key env)
    else if is_empty (alias_name entry)
    then delete_field (key ++ codes "_NAME") (insert_field key (str (alias_model entry)) env)
    else insert_field (key ++ codes "_NAME") (str (alias_name entry))
        (insert_field key (str (alias_model entry)) env)

unfoldable pub apply_tiers : List (Text × Text) → Fields → Fields → Fields
apply_tiers [] aliases env = env
apply_tiers ((tier, key) ∷ tiers) aliases env =
    apply_tiers tiers aliases (apply_alias (lookup tier aliases) key env)

-- An array has none of the tiers, and so clears all of them.
unfoldable pub apply_alias_map : Option Json → Fields → Fields
apply_alias_map (some (obj aliases)) env = apply_tiers alias_tier_keys aliases env
apply_alias_map (some (arr vs)) env = apply_tiers alias_tier_keys end env
apply_alias_map v env = env
